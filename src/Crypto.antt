-- ===== src/Crypto.antt =====
-- crypto/crypto.go: encryption by AES-GCM and passwords. The packages crypto/aes, crypto/cipher and
-- encoding/base64 are the interface `Cipher`, bcrypt is `Hashing`; the bytes of the random reader, or
-- its error, are an argument. Text is a list of bytes.
pub mod RoundTrip
mod Tests
use cartridge.Prelude.{
  ℕ, zero, suc, ◌-◌, ◌<◌, ◌≡◌, String, Bool, true, false, Option, none, some, List, [], ◌∷◌, ◌++◌,
  ◌⊎◌, inl, inr, All, length, take, drop, ltb, if◌then◌else◌,
}

abbrev pub Bytes : Type 0
Bytes = List ℕ

-- A key of 32 bytes is one for AES-256, which GCM accepts; what was sealed opens under the same key
-- and nonce; base64 reads back what it wrote.
pub record Cipher : Type 0 where
  pub new_cipher : Bytes → Option String
  pub new_gcm : Bytes → Option String
  pub nonce_size : ℕ
  pub seal : Bytes → Bytes → Bytes → Bytes
  pub unseal : Bytes → Bytes → Bytes → Option Bytes
  pub encode : Bytes → Bytes
  pub decode : Bytes → Option Bytes
  pub new_cipher_32 : (key : Bytes) → length key ≡ 32 → new_cipher key ≡ none
  pub new_gcm_aes : (key : Bytes) → new_cipher key ≡ none → new_gcm key ≡ none
  pub unseal_seal :
      (key nonce text : Bytes)
      → length key ≡ 32
      → length nonce ≡ nonce_size
      → All (λ c. c < 256) text
      → unseal key nonce (seal key nonce text) ≡ some text
  pub seal_bytes : (key nonce text : Bytes) → All (λ c. c < 256) (seal key nonce text)
  pub decode_encode : (b : Bytes) → All (λ c. c < 256) b → decode (encode b) ≡ some b

pub data CryptoError : Type 0 where
  cipher_failed gcm_failed nonce_failed : String → CryptoError
  not_base64 too_short not_decrypted : CryptoError

abbrev zeros : ℕ → Bytes
zeros zero = []
zeros (suc n) = 0 ∷ zeros n

unfoldable pub normalize_key : Bytes → Bytes
normalize_key key =
    if ltb (length key) 32
    then key ++ zeros (32 - length key)
    else if ltb 32 (length key)
    then take 32 key
    else key

abbrev pub plain_or : Option Bytes → CryptoError ⊎ Bytes
plain_or none = inl not_decrypted
plain_or (some text) = inr text

module _ (k : Cipher) where
  -- The cipher and its mode for a key, or the error.
  abbrev pub opened : Bytes → Option CryptoError
  opened key = elim (k.new_cipher key) [
    | some e ↦ some (cipher_failed e)
    | none ↦ elim (k.new_gcm key) [ some e ↦ some (gcm_failed e) | none ↦ none ]
  ]

  -- What follows the cipher, by its error; `nonce` is what rand.Reader gives, or its error.
  abbrev pub seal_with : Option CryptoError → String ⊎ Bytes → Bytes → Bytes → CryptoError ⊎ Bytes
  seal_with (some e) nonce text key_bytes = inl e
  seal_with none (inl e) text key_bytes = inl (nonce_failed e)
  seal_with none (inr nonce) text key_bytes = inr (k.encode (nonce ++ k.seal key_bytes nonce text))

  unfoldable pub encrypt : String ⊎ Bytes → Bytes → Bytes → CryptoError ⊎ Bytes
  encrypt nonce plaintext key =
      let key_bytes = normalize_key key in seal_with (opened key_bytes) nonce plaintext key_bytes

  -- What follows base64, by its bytes and the error of the cipher.
  abbrev pub open_with : Option Bytes → Option CryptoError → Bytes → CryptoError ⊎ Bytes
  open_with none e key_bytes = inl not_base64
  open_with (some bytes) (some e) key_bytes = inl e
  open_with (some bytes) none key_bytes =
      if ltb (length bytes) k.nonce_size
      then inl too_short
      else plain_or (k.unseal key_bytes (take k.nonce_size bytes) (drop k.nonce_size bytes))

  unfoldable pub decrypt : Bytes → Bytes → CryptoError ⊎ Bytes
  decrypt ciphertext key =
      let key_bytes = normalize_key key in
      open_with (k.decode ciphertext) (opened key_bytes) key_bytes

-- golang.org/x/crypto/bcrypt: a hash with its random salt, or an error such as for a password that is
-- too long; a comparison succeeds for the password of a hash.
pub record Hashing : Type 0 where
  pub generate : Bytes → Bytes → Option Bytes
  pub matches : Bytes → Bytes → Bool
  pub matches_generate :
      (salt password hash : Bytes)
      → generate salt password ≡ some hash
      → matches hash password ≡ true

module _ (h : Hashing) where
  unfoldable pub generate_password_hash : Bytes → Bytes → Option Bytes
  generate_password_hash salt password = h.generate salt password

  unfoldable pub verify_password : Bytes → Bytes → Bool
  verify_password hashed password = h.matches hashed password
