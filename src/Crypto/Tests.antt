-- ===== src/Crypto/Tests.antt =====
-- A cipher that leaves the text as it is, and the theorems at concrete inputs.
use cartridge.Prelude.{◌%◌, ◌<◌, ◌≡◌, refl, ap, none, some, [], ◌∷◌, inr, All, arith, length, map}
use cartridge.Crypto.{Bytes, Cipher, normalize_key, encrypt, decrypt}
use cartridge.Crypto.RoundTrip.{decrypt-encrypt}

abbrev low : Bytes → Bytes
low = map (λ c. c % 256)

low-All : (b : Bytes) → All (λ c. c < 256) (low b)
low-All [] = tt
low-All (c ∷ b) = (omega arith, low-All b)

low_same : (b : Bytes) → All (λ c. c < 256) b → low b ≡ b
low_same [] h = refl
low_same (c ∷ b) h = ground (arith, low_same b h.1, h.0)

unseal_low :
    (key nonce text : Bytes)
    → length key ≡ 32
    → length nonce ≡ 2
    → All (λ c. c < 256) text
    → some (low text) ≡ some text
unseal_low key nonce text k n h = ap some (low_same text h)

abbrev cipher : Cipher
cipher = record {
  new_cipher = λ key. none;
  new_gcm = λ key. none;
  nonce_size = 2;
  seal = λ key nonce text. low text;
  unseal = λ key nonce text. some text;
  encode = λ b. b;
  decode = λ b. some b;
  new_cipher_32 = λ key h. refl;
  new_gcm_aes = λ key h. refl;
  unseal_seal = unseal_low;
  seal_bytes = λ key nonce text. low-All text;
  decode_encode = λ b h. refl;
}

decrypt-encrypt_example :
    (c : Bytes) × (encrypt cipher (inr (8 ∷ 9 ∷ [])) (104 ∷ 105 ∷ []) (1 ∷ []) ≡ inr c)
    × (decrypt cipher c (1 ∷ 0 ∷ []) ≡ inr (104 ∷ 105 ∷ []))
unfolding normalize_key
decrypt-encrypt_example =
    decrypt-encrypt cipher (8 ∷ 9 ∷ []) (104 ∷ 105 ∷ []) (1 ∷ []) (1 ∷ 0 ∷ []) refl
      (ground arith, (ground arith, tt)) (ground arith, (ground arith, tt)) refl
