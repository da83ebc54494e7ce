-- ===== src/Middleware/Chain.antt =====
-- What a request is to the middleware, and chains of handlers: each one answers, or calls the next.
use cartridge.Prelude.{ℕ, String, Bool, List, [], ◌∷◌}

-- The parts of a request that the handlers read.
pub record Request : Type 0 where
  pub method : String
  pub header : String → String  -- the empty string where there is none
  pub accepts_json : Bool

-- A JSON body with `error` and `message`, the page of errorHTML by its code, title and message, or
-- the text "Error: code - message".
pub data Response : Type 0 where
  json : ℕ → String → String → Response
  page : ℕ → String → String → Response
  text : ℕ → String → Response

-- What a handler does with a request: an answer, or the call of c.Next.
pub data Verdict : Type 0 where
  answer : Response → Verdict
  next : Verdict

abbrev pub Handler : Type 0
Handler = Request → Verdict

-- The handlers of a route in their order, and the route's own handler after them.
unfoldable pub serve : List Handler → (Request → Response) → Request → Response
serve [] final r = final r
serve (h ∷ hs) final r = elim (h r) [ answer a ↦ a | next ↦ serve hs final r ]
