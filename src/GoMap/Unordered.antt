-- ===== src/GoMap/Unordered.antt =====
-- Maps without the order of their lists: two are equal where each key has the same value.

use mathlib.Core.Quot.{Quot}
use cartridge.Prelude.{◌≡◌, List, Comparable}
use cartridge.GoMap.{lookup}

abbrev pub SameValues {ℓ κ} :
    {K : Type ℓ} {V : Type κ} ⦃e : Comparable K⦄ → List (K × V) → List (K × V) → Type (ℓ ⊔ κ)
SameValues {K} m n = (k : K) → lookup k m ≡ lookup k n

abbrev pub Unordered {ℓ κ} : (K : Type ℓ) (V : Type κ) ⦃e : Comparable K⦄ → Type (ℓ ⊔ κ)
Unordered K V = Quot {α = List (K × V)} SameValues

abbrev pub unordered {ℓ κ} :
    {K : Type ℓ} {V : Type κ} ⦃e : Comparable K⦄ → List (K × V) → Unordered K V
unordered m = Quot.mk m
