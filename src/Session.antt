-- ===== src/Session.antt =====
-- session.go: sessions in signed cookies. The packages encoding/base64, encoding/json and
-- crypto/hmac are the interface `Codec`; the clock's readings and the request are arguments. Text
-- that is walked is a list of bytes. Logging is left out.
pub mod Authentication
mod Tests
use cartridge.Prelude.{
  ℕ, suc, pred, ◌*◌, ◌/◌, ◌<◌, ◌≡◌, String, Bool, true, false, Option, none, some, List, [], ◌∷◌,
  ◌++◌, ◌==◌, All, contains, leb, ltb, nat_comparable, string_comparable, nat_beq, ◌&&◌,
  if◌then◌else◌,
}
use cartridge.Prelude.Int.{ℤ, pos, negsuc, ◌+ℤ◌, ltb_ℤ}
use cartridge.Strconv.{format_uint, parse_uint, split}

abbrev pub Bytes : Type 0
Bytes = List ℕ

pub record SessionConfig : Type 0 where
  pub cookie_name : String
  pub secret : Bytes
  pub ttl : ℤ
  pub secure : Bool
  pub login_path : String

pub record SessionManager : Type 0 where
  pub cookie_name : String
  pub secret : Bytes
  pub ttl : ℤ
  pub secure : Bool
  pub login_path : String

pub record SessionData : Type 0 where
  pub user_id : Bytes
  pub expires_at : ℤ

-- base64.RawURLEncoding, HMAC-SHA256 by secret and payload, and JSON of the session data. JSON
-- fails on a time that RFC 3339 cannot write, and keeps an ASCII user id and the instant.
pub record Codec : Type 0 where
  pub encode : Bytes → Bytes
  pub decode : Bytes → Option Bytes
  pub mac : Bytes → Bytes → Bytes
  pub marshal : SessionData → Option Bytes
  pub unmarshal : Bytes → Option SessionData
  pub decode_encode : (b : Bytes) → All (λ c. c < 256) b → decode (encode b) ≡ some b
  pub encode_dotless : (b : Bytes) → contains (encode b) b'.' ≡ false
  pub mac_bytes : (secret payload : Bytes) → All (λ c. c < 256) (mac secret payload)
  pub marshal_bytes : (d : SessionData) (b : Bytes) → marshal d ≡ some b → All (λ c. c < 256) b
  pub unmarshal_marshal :
      (n : ℕ) (t : ℤ) (b : Bytes)
      → marshal (record { user_id = format_uint n; expires_at = t }) ≡ some b
      → unmarshal b ≡ some (record { user_id = format_uint n; expires_at = t })

pub record Cookie : Type 0 where
  pub name : String
  pub value : Bytes
  pub path : String
  pub max_age : ℤ
  pub expires : ℤ
  pub secure : Bool
  pub http_only : Bool
  pub same_site : String

-- What the program reads of a request; an absent cookie or header is empty.
pub record Request : Type 0 where
  pub cookies : String → Bytes
  pub hx_request : String

pub data Response : Type 0 where
  next : Response
  status : ℕ → String → Response
  redirect : String → Response

abbrev pub second : ℕ
second = 1_000_000_000

-- int(d.Seconds()), which rounds towards zero.
abbrev pub seconds : ℤ → ℤ
seconds (pos n) = pos (n / second)
seconds (negsuc n) = let s = suc n / second in if nat_beq s 0 then pos 0 else negsuc (pred s)

abbrev is_zero : ℤ → Bool
is_zero (pos n) = nat_beq n 0
is_zero (negsuc n) = false

unfoldable pub new_session_manager : SessionConfig → SessionManager
new_session_manager cfg = record {
  cookie_name = if cfg.cookie_name == "" then "session" else cfg.cookie_name;
  secret = cfg.secret;
  ttl = if is_zero cfg.ttl then pos (24 * 3600 * second) else cfg.ttl;
  secure = cfg.secure;
  login_path = if cfg.login_path == "" then "/login" else cfg.login_path;
}

-- hmac.Equal
unfoldable pub bytes_equal : Bytes → Bytes → Bool
bytes_equal [] [] = true
bytes_equal (a ∷ as') (b ∷ bs) = nat_beq a b && bytes_equal as' bs
bytes_equal _ _ = false

module _ (k : Codec) (sm : SessionManager) where
  unfoldable pub sign : Bytes → Bytes
  sign payload = k.encode payload ++ b'.' ∷ k.encode (k.mac sm.secret payload)

  unfoldable pub check : Bytes → Option Bytes → Option SessionData
  check payload none = none
  check payload (some sig) =
      if bytes_equal (k.mac sm.secret payload) sig then k.unmarshal payload else none

  unfoldable pub verify_parts : List Bytes → Option SessionData
  verify_parts (a ∷ b ∷ []) = elim (k.decode a) [
    | none ↦ none
    | some payload ↦ check payload (k.decode b)
  ]
  verify_parts _ = none

  -- The errors are told apart by their messages only, which are logged: all are `none`.
  unfoldable pub verify : Bytes → Option SessionData
  verify token = verify_parts (split b'.' token)

  unfoldable pub set_session : ℤ → ℕ → Option Cookie
  set_session now user_id =
      let expires = now +ℤ sm.ttl in
      elim (k.marshal (record { user_id = format_uint user_id; expires_at = expires })) [
        | none ↦ none
        | some payload ↦ some (record {
          name = sm.cookie_name;
          value = sign payload;
          path = "/";
          max_age = seconds sm.ttl;
          expires = expires;
          secure = sm.secure;
          http_only = true;
          same_site = "Lax";
        })
      ]

  unfoldable pub clear_session : ℤ → Cookie
  clear_session now = record {
    name = sm.cookie_name;
    value = [];
    path = "/";
    max_age = negsuc 0;
    expires = now +ℤ negsuc (pred (24 * 3600 * second));
    secure = sm.secure;
    http_only = true;
    same_site = "Lax";
  }

  -- The session data of a token that verifies and has not expired at `now`.
  unfoldable pub live_session : ℤ → Bytes → Option SessionData
  live_session now [] = none
  live_session now (c ∷ token) = elim (verify (c ∷ token)) [
    | none ↦ none
    | some d ↦ if ltb_ℤ d.expires_at now then none else some d
  ]

  unfoldable pub is_authenticated : ℤ → Request → Bool
  is_authenticated now req = elim (live_session now (req.cookies sm.cookie_name)) [
    | none ↦ false
    | some d ↦ elim (parse_uint 64 d.user_id) [ none ↦ false | some _ ↦ true ]
  ]

  unfoldable pub get_user_id : ℤ → Request → Option ℕ
  get_user_id now req = elim (live_session now (req.cookies sm.cookie_name)) [
    | none ↦ none
    | some d ↦ parse_uint 32 d.user_id
  ]

  unfoldable pub middleware : ℤ → Request → Response
  middleware now req =
      if is_authenticated now req
      then next
      else if req.hx_request == "true"
      then status 401 "authentication required"
      else redirect sm.login_path
