-- ===== src/Session/Tests.antt =====
-- A codec that meets the laws, and the theorems on sessions at concrete inputs.
use cartridge.Prelude.{
  ℕ, ◌+◌, ◌-◌, ◌^◌, ◌<◌, ◌≡◌, ◌≢◌, refl, ap, Bool, true, false, not, ◌&&◌, Option, none, some, [],
  ◌∷◌, ◌++◌, if◌then◌else◌, ltb, contains, arith, All, string_comparable, nat_comparable, ◌==◌,
}
use cartridge.Prelude.Int.{ℤ, pos, negsuc, ◌+ℤ◌, ltb_ℤ}
use cartridge.Strconv.{format_uint, parse_uint, split}
use cartridge.Session.{
  Bytes, SessionManager, SessionData, Codec, Cookie, Request, next, status, redirect, sign,
  set_session, verify, verify_parts, check, bytes_equal, live_session, is_authenticated,
  get_user_id, middleware,
}
use cartridge.Session.Authentication.{IsGenuine, is_authenticated-set_session, middleware_sound}

-- Every byte moved above the ASCII range.
shift : Bytes → Bytes
shift [] = []
shift (c ∷ b) = (c + 256) ∷ shift b

unshift : Bytes → Bytes
unshift [] = []
unshift (c ∷ b) = (c - 256) ∷ unshift b

unshift-shift : (b : Bytes) → unshift (shift b) ≡ b
unfolding shift unshift
unshift-shift [] = refl
unshift-shift (c ∷ b) = ground (arith, unshift-shift b)

shift-dotless : (b : Bytes) → contains (shift b) b'.' ≡ false
unfolding shift
shift-dotless [] = refl
shift-dotless (c ∷ b) = ground (arith, shift-dotless b)

are_bytes : Bytes → Bool
are_bytes [] = true
are_bytes (c ∷ b) = ltb c 256 && are_bytes b

are_bytes-All : (b : Bytes) → are_bytes b ≡ true → All (λ c. c < 256) b
unfolding are_bytes
are_bytes-All [] h = tt
are_bytes-All (c ∷ b) h = ground (arith, are_bytes-All b)

-- The instant in the first byte, if it is small, and the user id behind it.
marshal_at : ℤ → Bytes → Option Bytes
marshal_at (pos t) user = if are_bytes (t ∷ user) then some (t ∷ user) else none
marshal_at (negsuc t) user = none

unmarshal : Bytes → Option SessionData
unmarshal [] = none
unmarshal (t ∷ user) = some (record { user_id = user; expires_at = pos t })

marshal_at-bytes : (t : ℤ) (user b : Bytes) → marshal_at t user ≡ some b → All (λ c. c < 256) b
unfolding marshal_at
marshal_at-bytes (pos t) user b h = ground (arith, are_bytes-All (t ∷ user))
marshal_at-bytes (negsuc t) user b h = absurd (cc)

unmarshal-marshal_at :
    (t : ℤ) (user b : Bytes)
    → marshal_at t user ≡ some b
    → unmarshal b ≡ some (record { user_id = user; expires_at = t })
unfolding marshal_at unmarshal
unmarshal-marshal_at (pos t) user b h = ground arith
unmarshal-marshal_at (negsuc t) user b h = absurd (cc)

abbrev codec : Codec
codec = record {
  encode = shift;
  decode = λ b. some (unshift b);
  mac = λ secret payload. 7 ∷ [];
  marshal = λ d. marshal_at d.expires_at d.user_id;
  unmarshal = unmarshal;
  decode_encode = λ b h. ap some (unshift-shift b);
  encode_dotless = shift-dotless;
  mac_bytes = λ secret payload. omega arith;
  marshal_bytes = λ d b. marshal_at-bytes d.expires_at d.user_id b;
  unmarshal_marshal = λ n t b. unmarshal-marshal_at t (format_uint n) b;
}

abbrev manager : SessionManager
manager = record {
  cookie_name = "session";
  secret = b's' ∷ [];
  ttl = pos 100;
  secure = true;
  login_path = "/login";
}

program : Unit {0}
unfolding shift unshift are_bytes marshal_at unmarshal sign set_session format_uint parse_uint split
    verify_parts check bytes_equal verify live_session is_authenticated get_user_id middleware ◌+ℤ◌
program = tt

-- A user whose number does not fit in 32 bits.
abbrev wide_user : ℕ
wide_user = 2 ^ 32

abbrev cookie : Cookie
cookie = record {
  name = "session";
  value = shift (103 ∷ format_uint wide_user) ++ b'.' ∷ shift (7 ∷ []);
  path = "/";
  max_age = pos 0;
  expires = pos 103;
  secure = true;
  http_only = true;
  same_site = "Lax";
}

abbrev request : Request
request = record {
  cookies = λ name. if name == "session" then cookie.value else [];
  hx_request = "";
}

made : set_session codec manager (pos 3) wide_user ≡ some cookie
unfolding program
made = refl

wide_user_has_no_id :
    (is_authenticated codec manager (pos 50) request ≡ true)
    × (get_user_id codec manager (pos 50) request ≡ none)
unfolding program
wide_user_has_no_id = (refl, refl)

is_authenticated-set_session_example :
    (is_authenticated codec manager (pos 104) request ≡ not (ltb_ℤ (pos 3 +ℤ pos 100) (pos 104)))
    × (get_user_id codec manager (pos 104) request ≡ (
        if ltb_ℤ (pos 3 +ℤ pos 100) (pos 104)
        then none
        else if ltb wide_user (2 ^ 32)
        then some wide_user
        else none))
is_authenticated-set_session_example =
    is_authenticated-set_session codec manager (pos 3) (pos 104) wide_user cookie request made refl
      (omega arith)

middleware_sound_example :
    (middleware codec manager (pos 50) request ≡ next
      → IsGenuine codec manager (pos 50) cookie.value)
    × (middleware codec manager (pos 50) request ≢ next
        → middleware codec manager (pos 50) request ≡ (
            if request.hx_request == "true"
            then status 401 "authentication required"
            else redirect "/login"))
middleware_sound_example = middleware_sound codec manager (pos 50) request
