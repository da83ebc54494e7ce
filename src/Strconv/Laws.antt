-- ===== src/Strconv/Laws.antt =====
-- Numbers are read back as they were written, and a text splits at the separator that joined it.
use cartridge.Prelude.{
  ℕ, zero, suc, ◌+◌, ◌/◌, ◌%◌, ◌^◌, ◌≤◌, ◌<◌, ◌≡◌, ◌≢◌, refl, ◌∙◌, false, none, some, List, [], ◌∷◌,
  ◌++◌, ltb, if◌then◌else◌, arith, contains, Bool-cases, inl, inr, nat_comparable,
}
use cartridge.Strconv.{digits_from, format_uint, parse_from, parse_uint, split_on, split}

parse_from-digits_from :
    (bits fuel n : ℕ) (out : List ℕ)
    → n < fuel
    → n < 2 ^ bits
    → parse_from bits 0 (digits_from fuel n out) ≡ parse_from bits n out
unfolding digits_from parse_from
parse_from-digits_from bits zero n out h b = absurd (omega arith)
parse_from-digits_from bits (suc fuel) n out h b = elim (Bool-cases (ltb n 10)) [
  | inl small ↦ rw small (ground arith)
  | inr large ↦ rw large (
      parse_from-digits_from bits fuel (n / 10) ((48 + n % 10) ∷ out) (ground arith) (ground arith)
      ∙ ground arith)
]

-- A number that does not fit is refused.
parse_from-digits_from_overflow :
    (bits fuel n : ℕ) (out : List ℕ)
    → n < fuel
    → 2 ^ bits ≤ n
    → parse_from bits 0 (digits_from fuel n out) ≡ none
unfolding digits_from parse_from
parse_from-digits_from_overflow bits zero n out h b = absurd (omega arith)
parse_from-digits_from_overflow bits (suc fuel) n out h b = elim (Bool-cases (ltb n 10)) [
  | inl small ↦ rw small (ground arith)
  | inr large ↦ rw large (elim (Bool-cases (ltb (n / 10) (2 ^ bits))) [
    | inl fits ↦
        parse_from-digits_from bits fuel (n / 10) ((48 + n % 10) ∷ out) (ground arith)
          (ground arith)
        ∙ ground arith
    | inr over ↦
        parse_from-digits_from_overflow bits fuel (n / 10) ((48 + n % 10) ∷ out) (ground arith)
          (ground arith)
  ])
]

digits_from-ne-nil : (fuel n c : ℕ) (out : List ℕ) → digits_from fuel n (c ∷ out) ≢ []
unfolding digits_from
digits_from-ne-nil zero n c out = λ h. absurd (cc)
digits_from-ne-nil (suc fuel) n c out =
    λ h. absurd (ground (arith, digits_from-ne-nil fuel (n / 10) (48 + n % 10) (c ∷ out)))

format_uint-ne-nil : (n : ℕ) → format_uint n ≢ []
unfolding format_uint
format_uint-ne-nil n = λ h. absurd (ground (arith, digits_from-ne-nil n (n / 10) (48 + n % 10) []))

parse_uint-parse_from : (bits : ℕ) (s : List ℕ) → s ≢ [] → parse_uint bits s ≡ parse_from bits 0 s
unfolding parse_uint
parse_uint-parse_from bits [] h = absurd (h refl)
parse_uint-parse_from bits (c ∷ s) h = refl

-- A formatted number is read back if it fits in the width, and refused if it does not.
pub parse_uint-format_uint :
    (bits n : ℕ) → parse_uint bits (format_uint n) ≡ (if ltb n (2 ^ bits) then some n else none)
parse_uint-format_uint bits n =
    parse_uint-parse_from bits (format_uint n) (format_uint-ne-nil n)
    ∙ unfold format_uint in
      elim (Bool-cases (ltb n (2 ^ bits))) [
        | inl fits ↦ rw fits (
            parse_from-digits_from bits (suc n) n [] (omega arith) (ground arith)
            ∙ unfold parse_from in refl)
        | inr over ↦
            rw over (parse_from-digits_from_overflow bits (suc n) n [] (omega arith) (ground arith))
      ]

split_on_absent : (sep : ℕ) (a : List ℕ) → contains a sep ≡ false → split_on sep a ≡ (a, [])
unfolding split_on
split_on_absent sep [] h = refl
split_on_absent sep (c ∷ a) h = ground (arith, split_on_absent sep a)

split_on-join :
    (sep : ℕ) (a b : List ℕ)
    → contains a sep ≡ false
    → contains b sep ≡ false
    → split_on sep (a ++ sep ∷ b) ≡ (a, b ∷ [])
unfolding split_on
split_on-join sep [] b ha hb = ground (arith, split_on_absent sep b)
split_on-join sep (c ∷ a) b ha hb = ground (arith, split_on-join sep a b)

pub split-join :
    (sep : ℕ) (a b : List ℕ)
    → contains a sep ≡ false
    → contains b sep ≡ false
    → split sep (a ++ sep ∷ b) ≡ a ∷ b ∷ []
unfolding split
split-join sep a b ha hb = ground (arith, split_on-join sep a b)
