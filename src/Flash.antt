-- ===== src/Flash.antt =====
-- flash/flash.go: a message in a cookie for the next page. The packages encoding/json and
-- encoding/base64 are the interface `FlashCodec`; the clock's reading is an argument. Logging is left
-- out. A cookie of the request that is absent is empty.
use cartridge.Prelude.{
  ℕ, ◌*◌, ◌≡◌, String, Bool, true, false, Option, none, some, List, [], ◌∷◌, ◌==◌, if◌then◌else◌,
  arith, Option-cases, inl, inr, string_comparable,
}
use cartridge.Prelude.Int.{ℤ, pos, negsuc, ◌-ℤ◌}

pub record FlashMessage : Type 0 where
  pub type_name : String
  pub message : String

pub record Cookie : Type 0 where
  pub name : String
  pub value : String
  pub path : String
  pub max_age : ℤ
  pub expires : Option ℤ
  pub secure : Bool
  pub http_only : Bool
  pub same_site : String

-- JSON of a message is a text that reads back as the message; base64 of a text that is not empty is
-- not empty.
pub record FlashCodec : Type 0 where
  pub marshal : FlashMessage → Option String
  pub unmarshal : String → Option FlashMessage
  pub encode : String → String
  pub decode : String → Option String
  pub unmarshal_marshal :
      (m : FlashMessage) (s : String) → marshal m ≡ some s → unmarshal s ≡ some m
  pub marshal_full : (m : FlashMessage) (s : String) → marshal m ≡ some s → (s == "") ≡ false
  pub decode_encode : (s : String) → decode (encode s) ≡ some s
  pub encode_full : (s : String) → (s == "") ≡ false → (encode s == "") ≡ false

abbrev pub flash_cookie_name : String
flash_cookie_name = "fusionaly_flash"

abbrev pub empty_message : FlashMessage
empty_message = record { type_name = ""; message = "" }

abbrev first_or_false : List Bool → Bool
first_or_false [] = false
first_or_false (b ∷ bs) = b

abbrev pub day : ℕ
day = 24 * 3600 * 1_000_000_000

-- The cookies of a request that carries `c` too.
abbrev pub with_cookie : Cookie → (String → String) → String → String
with_cookie c cookies name = if name == c.name then c.value else cookies name

module _ (k : FlashCodec) where
  -- The cookie that SetFlash adds to the response.
  unfoldable pub set_flash : String → String → List Bool → Option Cookie
  set_flash message_type message secure =
      elim (k.marshal (record { type_name = message_type; message = message })) [
        | none ↦ none
        | some text ↦ some (record {
          name = flash_cookie_name;
          value = k.encode text;
          path = "/";
          max_age = pos 60;
          expires = none;
          secure = first_or_false secure;
          http_only = true;
          same_site = "Lax";
        })
      ]

  abbrev pub expired_cookie : ℤ → Cookie
  expired_cookie now = record {
    name = flash_cookie_name;
    value = "";
    path = "/";
    max_age = negsuc 0;
    expires = some (now -ℤ pos day);
    secure = false;
    http_only = true;
    same_site = "Lax";
  }

  unfoldable pub decoded_flash : String → FlashMessage
  decoded_flash value = elim (k.decode value) [
    | none ↦ empty_message
    | some text ↦ elim (k.unmarshal text) [ none ↦ empty_message | some m ↦ m ]
  ]

  -- The message, and the cookie that GetFlash adds to the response.
  unfoldable pub get_flash : ℤ → (String → String) → FlashMessage × Option Cookie
  unfolding decoded_flash
  get_flash now cookies =
      let value = cookies flash_cookie_name in
      if value == ""
      then (empty_message, none)
      else (decoded_flash value, some (expired_cookie now))

  cookie_of-set_flash :
      (message_type message : String) (secure : List Bool) (c : Cookie) (text : String)
      → k.marshal (record { type_name = message_type; message = message }) ≡ some text
      → set_flash message_type message secure ≡ some c
      → (c.name ≡ flash_cookie_name) × (c.value ≡ k.encode text) × (c.path ≡ "/")
  unfolding set_flash
  cookie_of-set_flash message_type message secure c text written h =
      (ground (arith, written, h), ground (arith, written, h), ground (arith, written, h))

  -- A request that carries the cookie of SetFlash gets the same type and message from GetFlash, and
  -- the answer has a cookie of the same name and path, empty and expired; a request whose cookie is
  -- that empty one gets the empty message and no cookie.
  pub get-set_flash :
      (now : ℤ) (message_type message : String) (secure : List Bool) (c : Cookie)
      → (cookies : String → String) → set_flash message_type message secure ≡ some c
      → let gone = expired_cookie now in
        let m : FlashMessage = record { type_name = message_type; message = message } in
        (get_flash now (with_cookie c cookies) ≡ (m, some gone))
        × (gone.name ≡ c.name)
        × (gone.path ≡ c.path)
        × (get_flash now (with_cookie gone cookies) ≡ (empty_message, none))
  unfolding set_flash get_flash decoded_flash
  get-set_flash now message_type message secure c cookies h =
      let m : FlashMessage = record { type_name = message_type; message = message } in
      elim (Option-cases (k.marshal m)) [
        | inl failed ↦ absurd (ground (arith, failed))
        | inr (text, written) ↦ ground (
          arith,
          cookie_of-set_flash message_type message secure c text written h,
          k.unmarshal_marshal m text written,
          k.marshal_full m text written,
          k.decode_encode text,
          k.encode_full text,
          string_comparable.equal_iff flash_cookie_name c.name,
        )
      ]
