-- ===== src/Session/Authentication.antt =====
-- Which requests are authenticated, for how long, and as whom.
use cartridge.Prelude.{
  ℕ, ◌<◌, ◌^◌, ◌≡◌, ◌≢◌, ◌↔◌, ◌∙◌, ap, refl, true, not, none, some, List, [], ◌∷◌, ◌++◌, ◌==◌, All,
  ltb, nat_comparable, string_comparable, if◌then◌else◌, arith, Option-cases, inl, inr,
}
use cartridge.Prelude.Int.{ℤ, ◌+ℤ◌, ltb_ℤ, ◌≤ℤ◌}
use cartridge.Strconv.{format_uint, parse_uint, split}
use cartridge.Strconv.Laws.{parse_uint-format_uint, split-join}
use cartridge.Session.{
  Bytes, SessionManager, SessionData, Codec, Cookie, Request, next, status, redirect, bytes_equal,
  sign, check, verify_parts, verify, set_session, live_session, is_authenticated, get_user_id,
  middleware,
}

bytes_equal_iff : (a b : Bytes) → (bytes_equal a b ≡ true) ↔ (a ≡ b)
unfolding bytes_equal
bytes_equal_iff [] [] = ground arith
bytes_equal_iff [] (y ∷ b) = ground arith
bytes_equal_iff (x ∷ a) [] = ground arith
bytes_equal_iff (x ∷ a) (y ∷ b) = ground (arith, bytes_equal_iff a b)

append-ne-nil : (a : Bytes) (x : ℕ) (b : Bytes) → a ++ x ∷ b ≢ []
append-ne-nil [] x b = λ h. cc
append-ne-nil (y ∷ a) x b = λ h. cc

module _ (k : Codec) (sm : SessionManager) where
  verify-sign :
      (payload : Bytes)
      → All (λ c. c < 256) payload
      → verify k sm (sign k sm payload) ≡ k.unmarshal payload
  unfolding verify verify_parts check sign
  verify-sign payload h = ground (
    arith,
    split-join b'.' (k.encode payload) (k.encode (k.mac sm.secret payload))
        (k.encode_dotless payload) (k.encode_dotless (k.mac sm.secret payload)),
    k.decode_encode payload h,
    k.decode_encode (k.mac sm.secret payload) (k.mac_bytes sm.secret payload),
    bytes_equal_iff (k.mac sm.secret payload) (k.mac sm.secret payload),
  )

  live_session_of_ne-nil :
      (now : ℤ) (token : Bytes) (d : SessionData)
      → token ≢ []
      → verify k sm token ≡ some d
      → live_session k sm now token ≡ (if ltb_ℤ d.expires_at now then none else some d)
  unfolding live_session
  live_session_of_ne-nil now [] d h v = absurd (h refl)
  live_session_of_ne-nil now (c ∷ token) d h v = ground arith

  sign-ne-nil : (payload : Bytes) → sign k sm payload ≢ []
  unfolding sign
  sign-ne-nil payload = append-ne-nil (k.encode payload) b'.' (k.encode (k.mac sm.secret payload))

  live_session-set_session :
      (at now : ℤ) (u : ℕ) (c : Cookie)
      → set_session k sm at u ≡ some c
      → live_session k sm now c.value ≡ (
          if ltb_ℤ (at +ℤ sm.ttl) now
          then none
          else some (record { user_id = format_uint u; expires_at = at +ℤ sm.ttl }))
  unfolding set_session
  live_session-set_session at now u c h =
      let d : SessionData = record { user_id = format_uint u; expires_at = at +ℤ sm.ttl } in
      elim (Option-cases (k.marshal d)) [
        | inl failed ↦ absurd (ground arith)
        | inr (payload, made) ↦
            let value : c.value ≡ sign k sm payload = ground arith in
            rw value (
              live_session_of_ne-nil now (sign k sm payload) d (sign-ne-nil payload) (
                verify-sign payload (k.marshal_bytes d payload made)
                ∙ k.unmarshal_marshal u (at +ℤ sm.ttl) payload made))
      ]

  -- A request that carries the cookie of a session that was made at `at` for a 64-bit user is
  -- authenticated until the time to live has passed, and not after. Until then its user is known
  -- if the number fits in 32 bits; a larger one is authenticated with no user.
  pub is_authenticated-set_session :
      (at now : ℤ) (u : ℕ) (c : Cookie) (req : Request)
      → set_session k sm at u ≡ some c
      → req.cookies sm.cookie_name ≡ c.value
      → u < 2 ^ 64
      → (is_authenticated k sm now req ≡ not (ltb_ℤ (at +ℤ sm.ttl) now))
        × (get_user_id k sm now req
            ≡ (if ltb_ℤ (at +ℤ sm.ttl) now then none else if ltb u (2 ^ 32) then some u else none))
  unfolding is_authenticated get_user_id
  is_authenticated-set_session at now u c req h carried wide =
      let live = ap (live_session k sm now) carried ∙ live_session-set_session at now u c h in
      (
        ground (arith, live, parse_uint-format_uint 64 u),
        ground (arith, live, parse_uint-format_uint 32 u),
      )

-- What makes a token genuine at `now`: two parts, a payload and the MAC of that payload under the
-- secret, which states a user and a time that has not passed.
pub record IsGenuine (k : Codec) (sm : SessionManager) (now : ℤ) (token : Bytes) : Type 0 where
  pub body : Bytes
  pub mark : Bytes
  pub payload : Bytes
  pub session : SessionData
  pub user : ℕ
  pub parts : split b'.' token ≡ body ∷ mark ∷ []
  pub decoded : k.decode body ≡ some payload
  pub signed : k.decode mark ≡ some (k.mac sm.secret payload)
  pub stated : k.unmarshal payload ≡ some session
  pub numbered : parse_uint 64 session.user_id ≡ some user
  pub unexpired : now ≤ℤ session.expires_at

module _ (k : Codec) (sm : SessionManager) where
  verified :
      (parts : List Bytes) (d : SessionData)
      → verify_parts k sm parts ≡ some d
      → (body : Bytes) × (mark : Bytes) × (payload : Bytes) × (parts ≡ body ∷ mark ∷ [])
        × (k.decode body ≡ some payload)
        × (k.decode mark ≡ some (k.mac sm.secret payload))
        × (k.unmarshal payload ≡ some d)
  unfolding verify_parts check
  verified [] d h = absurd (cc)
  verified (a ∷ []) d h = absurd (cc)
  verified (a ∷ b ∷ c ∷ l) d h = absurd (cc)
  verified (a ∷ b ∷ []) d h = elim (Option-cases (k.decode a)) [
    | inl bad ↦ absurd (ground arith)
    | inr (payload, e) ↦ elim (Option-cases (k.decode b)) [
      | inl bad ↦ absurd (ground arith)
      | inr (sig, f) ↦ (
        a,
        b,
        payload,
        refl,
        e,
        ground (arith, bytes_equal_iff (k.mac sm.secret payload) sig),
        ground arith,
      )
    ]
  ]

  live_session_sound :
      (now : ℤ) (token : Bytes) (d : SessionData)
      → live_session k sm now token ≡ some d
      → (verify k sm token ≡ some d) × (now ≤ℤ d.expires_at)
  unfolding live_session
  live_session_sound now [] d h = absurd (cc)
  live_session_sound now (c ∷ token) d h = ground arith

  is_authenticated-IsGenuine :
      (now : ℤ) (req : Request)
      → is_authenticated k sm now req ≡ true
      → IsGenuine k sm now (req.cookies sm.cookie_name)
  unfolding is_authenticated
  is_authenticated-IsGenuine now req h =
      elim (Option-cases (live_session k sm now (req.cookies sm.cookie_name))) [
        | inl dead ↦ absurd (ground arith)
        | inr (d, live) ↦ elim (Option-cases (parse_uint 64 d.user_id)) [
          | inl unread ↦ absurd (ground arith)
          | inr (user, read) ↦
              let (checked, unexpired) =
                live_session_sound now (req.cookies sm.cookie_name) d live in
              let (body, mark, payload, parts, decoded, signed, stated) =
                verified (split b'.' (req.cookies sm.cookie_name)) d (unfold verify in checked) in
              record {
                body = body;
                mark = mark;
                payload = payload;
                session = d;
                user = user;
                parts = parts;
                decoded = decoded;
                signed = signed;
                stated = stated;
                numbered = read;
                unexpired = unexpired;
              }
        ]
      ]

  -- The middleware lets a request through only if its session cookie is genuine; any other request
  -- is answered by 401 if HTMX sent it and by a redirect to the login path if not.
  pub middleware_sound :
      (now : ℤ) (req : Request)
      → (middleware k sm now req ≡ next → IsGenuine k sm now (req.cookies sm.cookie_name))
        × (middleware k sm now req ≢ next
            → middleware k sm now req ≡ (
                if req.hx_request == "true"
                then status 401 "authentication required"
                else redirect sm.login_path))
  unfolding middleware
  middleware_sound now req =
      (λ h. is_authenticated-IsGenuine now req (ground arith), λ h. ground arith)
