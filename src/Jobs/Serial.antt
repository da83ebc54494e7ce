-- ===== src/Jobs/Serial.antt =====
-- A dispatcher whose Start is not called while a Stop is waiting: its loops, and that Stop returns.
use cartridge.Prelude.{
  ℕ, suc, zero, ◌≡◌, ◌≤◌, ◌⊎◌, inl, inr, refl, arith, Bool, true, false, List, [], ◌∷◌, ap,
  contains, nat_comparable, length, All, subst, sym,
}
use cartridge.Jobs.{Loop, batch, selecting, JobDispatcher, Step, selects, exits}
use cartridge.Jobs.Invariant.{
  ReachedSerially, Fits, OnChannel, running_count, idle_count, ReachedSerially-IsSerial,
}

at_most_one : (r : Bool) (w n : ℕ) → Fits r w n → n ≤ 1
at_most_one true w n f = omega arith
at_most_one false zero n f = omega arith
at_most_one false (suc w) n f = f.1

-- When no Start is called before every Stop has returned, at most one loop lives at any time:
-- exactly one while the dispatcher runs, with no Stop waiting, and none once it was stopped and
-- the Stop has returned.
pub serial-loops :
    (d : JobDispatcher)
    → ReachedSerially d
    → (length d.loops ≤ 1)
      × (d.running ≡ true → (d.waiting ≡ 0) × (length d.loops ≡ 1))
      × (d.running ≡ false → d.waiting ≡ 0 → length d.loops ≡ 0)
serial-loops d r =
    let s = (ReachedSerially-IsSerial d r).count in
    (
      at_most_one d.running d.waiting (length d.loops) s,
      λ t. running_count d.running d.waiting (length d.loops) t s,
      λ f w. idle_count d.running d.waiting (length d.loops) f w s,
    )

single_loop :
    (xs : List Loop) (c : ℕ)
    → length xs ≤ 1
    → All (OnChannel c) xs
    → (xs ≡ []) ⊎ (xs ≡ batch ∷ []) ⊎ (xs ≡ selecting c ∷ [])
single_loop [] c l a = inl refl
single_loop (x ∷ []) c l (inl e, a) = inr (inl (ap (λ y. y ∷ []) e))
single_loop (x ∷ []) c l (inr e, a) = inr (inr (ap (λ y. y ∷ []) e))
single_loop (x ∷ y ∷ ys) c l a = ground arith

-- Steps one after the other.
pub data Leads : JobDispatcher → JobDispatcher → Type 0 where
  stays : (d : JobDispatcher) → Leads d d
  goes : (d e f : JobDispatcher) → Step d e → Leads e f → Leads d f

exit-Leads :
    (d : JobDispatcher)
    → contains d.closed d.stop ≡ true
    → d.loops ≡ selecting d.stop ∷ []
    → Leads d (record d { loops = [] })
exit-Leads d t l = goes d _ _ (exits d d.stop [] [] l t) (stays _)

-- From every state in which the dispatcher was stopped, when no Start is called before every Stop
-- has returned, steps lead to the same state without a loop, in which the waiting Stop can return.
pub serial-stops :
    (d : JobDispatcher) → ReachedSerially d → d.running ≡ false → Leads d (record d { loops = [] })
serial-stops d r f =
    let s = ReachedSerially-IsSerial d r in
    elim (single_loop d.loops d.stop (at_most_one d.running d.waiting (length d.loops) s.count)
      s.channel) [
        | inl l ↦ subst (Leads d) (ap (λ x. record d { loops = x }) l) (stays d)
        | inr (inl l) ↦
            let t = s.told f (subst (λ k. 1 ≤ k) (sym (ap length l)) (omega arith)) in
            goes d _ _ (selects d [] [] l)
              (exit-Leads (record d { loops = selecting d.stop ∷ [] }) t refl)
        | inr (inr l) ↦
            exit-Leads d (s.told f (subst (λ k. 1 ≤ k) (sym (ap length l)) (omega arith))) l
      ]
