-- ===== src/Crypto/RoundTrip.antt =====
-- crypto/crypto.go: what Encrypt writes, Decrypt reads, for every key that is normalized alike.
use cartridge.Prelude.{
  ℕ, zero, suc, ◌-◌, ◌<◌, ◌≡◌, refl, ap, sym, ◌∙◌, false, none, some, [], ◌∷◌, ◌++◌, inl, inr, All,
  length, length-append, length-take, take, drop, ltb, lt→ltb, if◌then◌else◌, arith,
}
use cartridge.Crypto.{
  Bytes, Cipher, normalize_key, opened, encrypt, decrypt, zeros, plain_or, seal_with, open_with,
  too_short,
}

length-zeros : (n : ℕ) → length (zeros n) ≡ n
length-zeros zero = refl
length-zeros (suc n) = ap suc (length-zeros n)

-- Every key is normalized to 32 bytes.
pub length-normalize_key : (key : Bytes) → length (normalize_key key) ≡ 32
unfolding normalize_key
length-normalize_key key = ground (
  arith,
  length-append key (zeros (32 - length key)),
  length-zeros (32 - length key),
  length-take 32 key,
)

take-append : (n : ℕ) (xs ys : Bytes) → length xs ≡ n → take n (xs ++ ys) ≡ xs
take-append zero [] ys h = refl
take-append zero (x ∷ xs) ys h = absurd (omega (arith, h))
take-append (suc n) [] ys h = absurd (omega (arith, h))
take-append (suc n) (x ∷ xs) ys h = ap (◌∷◌ x) (take-append n xs ys (omega (arith, h)))

drop-append : (n : ℕ) (xs ys : Bytes) → length xs ≡ n → drop n (xs ++ ys) ≡ ys
drop-append zero [] ys h = refl
drop-append zero (x ∷ xs) ys h = absurd (omega (arith, h))
drop-append (suc n) [] ys h = absurd (omega (arith, h))
drop-append (suc n) (x ∷ xs) ys h = drop-append n xs ys (omega (arith, h))

All-append :
    (xs ys : Bytes) → All (λ c. c < 256) xs → All (λ c. c < 256) ys → All (λ c. c < 256) (xs ++ ys)
All-append [] ys a b = b
All-append (x ∷ xs) ys a b = (a.0, All-append xs ys a.1 b)

module _ (k : Cipher) where
  opened_normalized : (key : Bytes) → opened k (normalize_key key) ≡ none
  opened_normalized key =
      let c = k.new_cipher_32 (normalize_key key) (length-normalize_key key) in
      ground (arith, c, k.new_gcm_aes (normalize_key key) c)

  encrypt_nonce :
      (nonce text key : Bytes)
      → encrypt k (inr nonce) text key
        ≡ inr (k.encode (nonce ++ k.seal (normalize_key key) nonce text))
  unfolding encrypt
  encrypt_nonce nonce text key =
      ap (λ o. seal_with k o (inr nonce) text (normalize_key key)) (opened_normalized key)

  open_with_sealed :
      (nonce text key : Bytes)
      → length nonce ≡ k.nonce_size
      → length key ≡ 32
      → All (λ c. c < 256) text
      → open_with k (some (nonce ++ k.seal key nonce text)) none key ≡ inr text
  open_with_sealed nonce text key size h plain =
      let whole = nonce ++ k.seal key nonce text in
      let long : ltb (length whole) k.nonce_size ≡ false =
        ground (arith, length-append nonce (k.seal key nonce text), size) in
      rw (long, if◌then◌else◌)
        (ap plain_or (
          ap (λ n. k.unseal key n (drop k.nonce_size whole)) (take-append k.nonce_size nonce _ size)
          ∙ ap (k.unseal key nonce) (drop-append k.nonce_size nonce _ size)
          ∙ k.unseal_seal key nonce text h size plain))

  -- With a nonce of the cipher's size, Encrypt gives a text, and Decrypt reads the plaintext back
  -- from it, with that key or with any other that is padded or cut to the same 32 bytes.
  pub decrypt-encrypt :
      (nonce text key other : Bytes)
      → length nonce ≡ k.nonce_size
      → All (λ c. c < 256) nonce
      → All (λ c. c < 256) text
      → normalize_key other ≡ normalize_key key
      → (c : Bytes) × (encrypt k (inr nonce) text key ≡ inr c) × (decrypt k c other ≡ inr text)
  unfolding decrypt
  decrypt-encrypt nonce text key other size bytes plain same =
      let sealed = k.seal (normalize_key key) nonce text in
      let whole = nonce ++ sealed in
      (
        k.encode whole,
        encrypt_nonce nonce text key,
        ap (λ d. open_with k d (opened k (normalize_key other)) (normalize_key other))
              (k.decode_encode whole (All-append nonce sealed bytes (k.seal_bytes _ nonce text)))
            ∙ ap (λ o. open_with k (some whole) o (normalize_key other)) (opened_normalized other)
            ∙ ap (open_with k (some whole) none) same
            ∙ open_with_sealed nonce text (normalize_key key) size (length-normalize_key key) plain,
      )

  -- Decrypt of a text that is too short to hold a nonce is an error, whatever the key.
  pub decrypt_short :
      (c bytes key : Bytes)
      → k.decode c ≡ some bytes
      → length bytes < k.nonce_size
      → decrypt k c key ≡ inl too_short
  unfolding decrypt
  decrypt_short c bytes key h s =
      ap (λ d. open_with k d (opened k (normalize_key key)) (normalize_key key)) h
      ∙ ap (λ o. open_with k (some bytes) o (normalize_key key)) (opened_normalized key)
      ∙ rw (lt→ltb (length bytes) k.nonce_size s, if◌then◌else◌) refl

append_nil : (b : Bytes) → b ++ [] ≡ b
append_nil [] = refl
append_nil (c ∷ b) = ap (◌∷◌ c) (append_nil b)

normalize_key_exact : (key : Bytes) → length key ≡ 32 → normalize_key key ≡ key
unfolding normalize_key
normalize_key_exact key h = ground (arith, h)

normalize_key_long : (key : Bytes) → 32 < length key → normalize_key key ≡ take 32 key
unfolding normalize_key
normalize_key_long key h =
    let short : ltb (length key) 32 ≡ false = ground (arith, h) in
    rw (short, lt→ltb 32 (length key) h, if◌then◌else◌) refl

longer : (key rest : Bytes) (c : ℕ) → length key ≡ 32 → 32 < length (key ++ c ∷ rest)
longer key rest c h = omega (arith, h, length-append key (c ∷ rest))

-- Only the first 32 bytes of a key count.
pub normalize_key_cut :
    (key rest : Bytes) → length key ≡ 32 → normalize_key (key ++ rest) ≡ normalize_key key
normalize_key_cut key [] h = ap normalize_key (append_nil key)
normalize_key_cut key (c ∷ rest) h =
    normalize_key_long (key ++ c ∷ rest) (longer key rest c h)
    ∙ take-append 32 key (c ∷ rest) h
    ∙ sym (normalize_key_exact key h)
