-- ===== src/Jobs/Channels.antt =====
-- Lists of loops and of closed channels.
use cartridge.Prelude.{
  ℕ, suc, ◌≡◌, ◌≤◌, ◌⊎◌, inl, inr, refl, arith, Bool, true, false, List, [], ◌∷◌, ◌++◌, ap,
  contains, nat_comparable, length, All, ◌||◌, Bool-cases,
}
use cartridge.Jobs.{Loop}

module _ {ℓ κ} {A : Type ℓ} (P : A → Type κ) where
  pub All-here : (ps : List A) (x : A) (qs : List A) → All P (ps ++ x ∷ qs) → P x
  All-here [] x qs a = a.0
  All-here (p ∷ ps) x qs a = All-here ps x qs a.1

  pub All-replace :
      (ps : List A) (x y : A) (qs : List A) → All P (ps ++ x ∷ qs) → P y → All P (ps ++ y ∷ qs)
  All-replace [] x y qs a p = (p, a.1)
  All-replace (q ∷ ps) x y qs a p = (a.0, All-replace ps x y qs a.1 p)

  pub All-remove : (ps : List A) (x : A) (qs : List A) → All P (ps ++ x ∷ qs) → All P (ps ++ qs)
  All-remove [] x qs a = a.1
  All-remove (q ∷ ps) x qs a = (a.0, All-remove ps x qs a.1)

pub length-middle :
    (ps : List Loop) (x : Loop) (qs : List Loop) → length (ps ++ x ∷ qs) ≡ suc (length (ps ++ qs))
length-middle [] x qs = refl
length-middle (p ∷ ps) x qs = ap suc (length-middle ps x qs)

pub All-nil : (P : Loop → Type 0) (xs : List Loop) → length xs ≡ 0 → All P xs
All-nil P [] e = tt
All-nil P (x ∷ xs) e = ground arith

or_cases : (a b : Bool) → (a || b) ≡ true → (a ≡ true) ⊎ (b ≡ true)
or_cases true b h = inl refl
or_cases false b h = inr h

pub contains-here : (c : ℕ) (cs : List ℕ) → contains (c ∷ cs) c ≡ true
contains-here c cs = ap (λ b. b || contains cs c) ((nat_comparable.equal_iff c c).1 refl)

pub contains-bound :
    (s : ℕ) (cs : List ℕ) (c : ℕ)
    → ((k : ℕ) → contains cs k ≡ true → k ≤ s)
    → contains (s ∷ cs) c ≡ true
    → c ≤ s
contains-bound s cs c b h = elim (or_cases _ (contains cs c) h) [
  | inl e ↦ (let q = (nat_comparable.equal_iff s c).0 e in omega arith)
  | inr t ↦ b c t
]

pub contains-next :
    (s : ℕ) (cs : List ℕ) → ((k : ℕ) → contains cs k ≡ true → k ≤ s) → contains cs (suc s) ≡ false
contains-next s cs b = elim (Bool-cases (contains cs (suc s))) [
  | inl t ↦ (let l = b (suc s) t in ground arith)
  | inr f ↦ f
]
