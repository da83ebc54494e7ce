-- ===== src/Strconv.antt =====
-- Go's strconv and strings, as far as the session tokens use them, over bytes.
pub mod Laws
use cartridge.Prelude.{
  ℕ, zero, suc, ◌+◌, ◌-◌, ◌*◌, ◌/◌, ◌%◌, ◌^◌, Bool, ◌&&◌, Option, none, some, List, [], ◌∷◌, ltb,
  leb, nat_beq, if◌then◌else◌,
}

-- strconv.FormatUint(n, 10), which writes digits from the right. The fuel exceeds the number.
unfoldable pub digits_from : ℕ → ℕ → List ℕ → List ℕ
digits_from zero n out = out
digits_from (suc fuel) n out =
    let more = digits_from fuel (n / 10) ((48 + n % 10) ∷ out) in
    if ltb n 10 then (48 + n) ∷ out else more

unfoldable pub format_uint : ℕ → List ℕ
unfolding digits_from
format_uint n = digits_from (suc n) n []

-- strconv.ParseUint(s, 10, bits): an error, which is `none`, for an empty text, a byte that is no
-- digit, and a value that does not fit.
unfoldable pub parse_from : ℕ → ℕ → List ℕ → Option ℕ
parse_from bits n [] = some n
parse_from bits n (c ∷ s) =
    let n' = n * 10 + (c - 48) in
    let more = parse_from bits n' s in
    if leb 48 c && leb c 57 && ltb n' (2 ^ bits) then more else none

unfoldable pub parse_uint : ℕ → List ℕ → Option ℕ
unfolding parse_from
parse_uint bits [] = none
parse_uint bits (c ∷ s) = parse_from bits 0 (c ∷ s)

-- strings.Split(s, sep) for a separator of one byte: the part under way, and the parts behind it.
unfoldable pub split_on : ℕ → List ℕ → List ℕ × List (List ℕ)
split_on sep [] = ([], [])
split_on sep (c ∷ s) =
    let (part, parts) = split_on sep s in
    if nat_beq c sep then ([], part ∷ parts) else (c ∷ part, parts)

unfoldable pub split : ℕ → List ℕ → List (List ℕ)
unfolding split_on
split sep s = let (part, parts) = split_on sep s in part ∷ parts
