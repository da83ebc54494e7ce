-- ===== src/Config/Paths.antt =====
-- Package path/filepath on Unix, as far as config/config.go uses it.
use cartridge.Prelude.{
  String, Bool, not, ◌&&◌, ◌||◌, Option, none, some, List, [], ◌∷◌, ◌++◌, ◌==◌, if◌then◌else◌,
  concat, join, split_at, has_part, has_prefix, string_comparable, nat_beq,
}
use Prim.Native.Char.{code}
use Prim.Native.String as Str

-- filepath.Ext: from the last dot of the last element.
unfoldable pub ext? : String → Option String
unfolding has_part
ext? Str.[] = none
ext? (Str.◌∷◌ c s) = elim (ext? s) [
  | some e ↦ some e
  | none ↦ if nat_beq (code c) b'.' && not (has_part s "/") then some (Str.◌∷◌ c s) else none
]

unfoldable pub ext : String → String
unfolding ext?
ext s = elim (ext? s) [ none ↦ "" | some e ↦ e ]

unfoldable pub is_abs : String → Bool
unfolding has_prefix
is_abs s = has_prefix s "/"

abbrev step_up : Bool → List String → List String
step_up rooted [] = if rooted then [] else ".." ∷ []
step_up rooted (top ∷ above) = if top == ".." then ".." ∷ top ∷ above else above

-- The elements of the cleaned path, last first.
unfoldable pub clean_onto : Bool → List String → List String → List String
clean_onto rooted stack [] = stack
clean_onto rooted stack (part ∷ parts) =
    clean_onto rooted
      (if part == "" || part == "."
        then stack
        else if part == ".."
        then step_up rooted stack
        else part ∷ stack)
      parts

abbrev reversed : List String → List String
reversed [] = []
reversed (x ∷ xs) = reversed xs ++ x ∷ []

unfoldable pub clean : String → String
unfolding clean_onto split_at is_abs
clean path =
    let rooted = is_abs path in
    let out = join "/" (reversed (clean_onto rooted [] (split_at b'/' path))) in
    if rooted then concat ("/" ∷ out ∷ []) else if out == "" then "." else out

-- filepath.Join of two elements: empty ones are left out.
unfoldable pub join_path : String → String → String
unfolding clean
join_path dir file =
    if dir == ""
    then if file == "" then "" else clean file
    else if file == ""
    then clean dir
    else clean (concat (dir ∷ "/" ∷ file ∷ []))
