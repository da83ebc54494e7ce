-- ===== src/Prelude/Text.antt =====
-- Package strings, as far as the program uses it on whole texts.
use Prim.Native.Char.{Char, code}
use Prim.Native.Nat.{ℕ, zero, suc, ◌-◌}
use Prim.Native.String as Str
use Prim.Native.String.{String}
use mathlib.Core.Bool.{Bool, true, false, ◌||◌, ◌&&◌}
use mathlib.Core.Path.{◌≡◌, refl}
use mathlib.Core.List.{List, [], ◌∷◌}
use mathlib.Core.Option.{none, some}
use native.Mathlib.Omega.{arith}
use text.Mathlib.Text.{◌==◌ as text_equal, starts_with, find?}
use cartridge.Prelude.Tests.{nat_beq, leb, if◌then◌else◌}

-- strings.HasPrefix(s, prefix)
unfoldable pub has_prefix : String → String → Bool
has_prefix s prefix = starts_with s prefix

-- strings.Contains(s, part)
unfoldable pub has_part : String → String → Bool
has_part s part = elim (find? s part) [ none ↦ false | some _ ↦ true ]

-- unicode.IsSpace
unfoldable pub is_space : ℕ → Bool
is_space c =
    leb 9 c && leb c 13
    || nat_beq c 32
    || nat_beq c 133
    || nat_beq c 160
    || nat_beq c 5760
    || leb 8192 c && leb c 8202
    || nat_beq c 8232
    || nat_beq c 8233
    || nat_beq c 8239
    || nat_beq c 8287
    || nat_beq c 12288

-- strings.Split at one character: the part under way, and the parts behind it.
unfoldable pub split_rest : ℕ → String → String × List String
split_rest sep Str.[] = ("", [])
split_rest sep (Str.◌∷◌ c s) =
    let (part, parts) = split_rest sep s in
    if nat_beq (code c) sep then ("", part ∷ parts) else (Str.◌∷◌ c part, parts)

unfoldable pub split_at : ℕ → String → List String
unfolding split_rest
split_at sep s = let (part, parts) = split_rest sep s in part ∷ parts

unfoldable pub trim_left : String → String
unfolding is_space
trim_left Str.[] = ""
trim_left (Str.◌∷◌ c s) = if is_space (code c) then trim_left s else Str.◌∷◌ c s

abbrev cons_unless_blank : Bool → Char → String → String
cons_unless_blank true c Str.[] = ""
cons_unless_blank true c (Str.◌∷◌ d s) = Str.◌∷◌ c (Str.◌∷◌ d s)
cons_unless_blank false c s = Str.◌∷◌ c s

unfoldable pub trim_right : String → String
unfolding is_space
trim_right Str.[] = ""
trim_right (Str.◌∷◌ c s) = cons_unless_blank (is_space (code c)) c (trim_right s)

-- strings.TrimSpace
unfoldable pub trim_space : String → String
unfolding trim_left trim_right
trim_space s = trim_right (trim_left s)

abbrev pub append : String → String → String
append Str.[] t = t
append (Str.◌∷◌ c s) t = Str.◌∷◌ c (append s t)

abbrev pub concat : List String → String
concat [] = ""
concat (s ∷ ss) = append s (concat ss)

-- strings.Join
abbrev pub join : String → List String → String
join sep [] = ""
join sep (s ∷ []) = s
join sep (s ∷ t ∷ ss) = append s (append sep (join sep (t ∷ ss)))

-- html.EscapeString
unfoldable pub escape_string : String → String
escape_string Str.[] = ""
escape_string (Str.◌∷◌ c s) =
    let rest = escape_string s in
    if nat_beq (code c) b'&'
    then append "&amp;" rest
    else if nat_beq (code c) 39
    then append "&#39;" rest
    else if nat_beq (code c) b'<'
    then append "&lt;" rest
    else if nat_beq (code c) b'>'
    then append "&gt;" rest
    else if nat_beq (code c) b'"'
    then append "&#34;" rest
    else Str.◌∷◌ c rest

-- The text before the first single quote.
unfoldable pub until_quote : String → String
until_quote Str.[] = ""
until_quote (Str.◌∷◌ c s) = if nat_beq (code c) 39 then "" else Str.◌∷◌ c (until_quote s)

-- Escaped text has no single quote.
pub until_quote-escape_string :
    (s rest : String) → until_quote (append (escape_string s) (append "'" rest)) ≡ escape_string s
unfolding until_quote escape_string
until_quote-escape_string Str.[] rest = refl
until_quote-escape_string (Str.◌∷◌ c s) rest = ground (arith, until_quote-escape_string s rest)

abbrev pub nth_char : ℕ → String → Char → Char
nth_char n Str.[] other = other
nth_char zero (Str.◌∷◌ c s) other = c
nth_char (suc n) (Str.◌∷◌ c s) other = nth_char n s other

-- strings.ToLower and strings.ToUpper, on ASCII letters; other characters stay.
unfoldable pub to_lower : String → String
to_lower Str.[] = ""
to_lower (Str.◌∷◌ c s) =
    let d =
      if leb 65 (code c) && leb (code c) 90
      then nth_char (code c - 65) "abcdefghijklmnopqrstuvwxyz" c
      else c in
    Str.◌∷◌ d (to_lower s)

unfoldable pub to_upper : String → String
to_upper Str.[] = ""
to_upper (Str.◌∷◌ c s) =
    let d =
      if leb 97 (code c) && leb (code c) 122
      then nth_char (code c - 97) "ABCDEFGHIJKLMNOPQRSTUVWXYZ" c
      else c in
    Str.◌∷◌ d (to_upper s)

-- strings.TrimSuffix
unfoldable pub trim_suffix : String → String → String
trim_suffix Str.[] suffix = ""
trim_suffix (Str.◌∷◌ c s) suffix =
    let rest = trim_suffix s suffix in
    if text_equal (Str.◌∷◌ c s) suffix then "" else Str.◌∷◌ c rest
