-- ===== src/Structs/Tests.antt =====
-- Two maps with a key in common.
use cartridge.Prelude.{◌≡◌, refl, String, some, List, [], ◌∷◌, ◌++◌, arith, string_comparable}
use cartridge.GoMap.{lookup, insert, Visits}
use cartridge.Structs.{map_struct, compose, lookup-compose}
use cartridge.Structs.Unordered.{Range}

abbrev low : List (String × String)
low = ("title", "Home") ∷ ("user", "ann") ∷ []

abbrev high : List (String × String)
high = ("title", "Shop") ∷ []

low-Visits : Visits ("user" ∷ "title" ∷ []) low
low-Visits = record { distinct = (refl, (refl, tt)); same = λ k. ground arith }

high-Visits : Visits ("title" ∷ []) high
high-Visits = record { distinct = (refl, tt); same = λ k. refl }

tags :
    map_struct {V = String} (("name,omitempty", "x") ∷ ("-", "y") ∷ ("", "z") ∷ []) []
    ≡ ("name", "x") ∷ []
unfolding map_struct insert
tags = refl

abbrev lows : List (Range String)
lows = ("user" ∷ "title" ∷ [], low) ∷ []

abbrev highs : List (Range String)
highs = ("title" ∷ [], high) ∷ []

lookup-compose_example : lookup "title" (compose (lows ++ highs)) ≡ some "Shop"
unfolding lookup
lookup-compose_example = lookup-compose (lows ++ highs) "title" (low-Visits, (high-Visits, tt))
