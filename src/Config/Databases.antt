-- ===== src/Config/Databases.antt =====
-- config/config.go: the database files of the environments.
use Prim.Native.Char.{code}
use Prim.Native.String as Str
use cartridge.Prelude.{
  ℕ, ◌≡◌, refl, ap, sym, ◌∙◌, String, true, ◌⊎◌, inl, inr, arith, nat_beq, if◌then◌else◌,
  string_comparable, append,
}
use cartridge.Config.{development, production, test, known, environment_filename, trim_suffix, ext}

abbrev tail : String → String
tail Str.[] = ""
tail (Str.◌∷◌ c s) = s

abbrev first : String → ℕ
first Str.[] = 0
first (Str.◌∷◌ c s) = code c

append_cancel : (a s t : String) → append a s ≡ append a t → s ≡ t
append_cancel Str.[] s t h = h
append_cancel (Str.◌∷◌ c a) s t h = append_cancel a s t (ap tail h)

known_cases :
    (env : String) → known env ≡ true → (env ≡ development) ⊎ ((env ≡ production) ⊎ (env ≡ test))
known_cases env h = ground (
  arith,
  string_comparable.equal_iff env development,
  string_comparable.equal_iff env production,
  string_comparable.equal_iff env test,
)

-- The known environments differ in their first characters.
first-known : (env s : String) → known env ≡ true → first (append env s) ≡ first env
first-known env s h = elim (known_cases env h) [
  | inl d ↦ rw d refl
  | inr (inl p) ↦ rw p refl
  | inr (inr t) ↦ rw t refl
]

abbrev by_first : ℕ → String
by_first c = if nat_beq c b'd' then development else if nat_beq c b'p' then production else test

by_first-first : (env : String) → known env ≡ true → by_first (first env) ≡ env
by_first-first env h = elim (known_cases env h) [
  | inl d ↦ rw d refl
  | inr (inl p) ↦ rw p refl
  | inr (inr t) ↦ rw t refl
]

-- Two known environments that turn a database's file name into the same name are the same one.
pub environment_filename_injective :
    (filename env other : String)
    → known env ≡ true
    → known other ≡ true
    → environment_filename filename env ≡ environment_filename filename other
    → env ≡ other
unfolding environment_filename
environment_filename_injective filename env other h h' same =
    let rest = append_cancel (trim_suffix filename (ext filename)) _ _ same in
    let firsts =
      sym (first-known env _ h) ∙ ap (λ s. first (tail s)) rest ∙ first-known other _ h' in
    sym (by_first-first env h) ∙ ap by_first firsts ∙ by_first-first other h'
