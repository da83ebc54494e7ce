-- ===== src/Sqlite/Transaction/Outcome.antt =====
-- What a write returns: the verdict on each attempt, and the two strategies compared.
use mathlib.Core.Path.{fun_ext}
use native.Mathlib.Decide.{ℕ_discrete}
use native.Mathlib.Nat.{add-zero}
use cartridge.Prelude.{
  ℕ, zero, suc, ◌+◌, ◌≤◌, ◌<◌, ◌≡◌, ◌↔◌, ◌⊎◌, refl, sym, ap, subst, ◌∙◌, Option, none, some, String,
  if◌then◌else◌, arith, inl, inr,
}
use cartridge.Sqlite.Transaction.{
  Attempts, TransactionConfig, Failure, Run, failed_to_begin, returned, failed_to_commit,
  failed_after_retries, is_busy_error, native_round, mutex_round, native_from, mutex_from,
  perform_write_with_config,
}

pub data Verdict : Type 0 where
  success : Verdict
  retry : String → Verdict
  give_up : Failure → Verdict

-- What one attempt decides, from the errors of Begin, of the callback and of Commit.
unfoldable pub judge : Option String → Option String → Option String → Verdict
judge (some e) failed uncommitted = give_up (failed_to_begin e)
judge none (some e) uncommitted = if is_busy_error (some e) then retry e else give_up (returned e)
judge none none (some e) = if is_busy_error (some e) then retry e else give_up (failed_to_commit e)
judge none none none = success

abbrev pub verdict : Attempts → ℕ → Verdict
verdict env i = judge (env.begin_error i) (env.body_error i) (env.commit_error i)

abbrev conclude : Verdict → (Option String → Option Failure) → Option Failure
conclude success next = none
conclude (retry e) next = next (some e)
conclude (give_up f) next = some f

-- What the first attempt decides, of those left, that does not ask for another one.
unfoldable pub first_final : Attempts → ℕ → ℕ → Option String → Option Failure
first_final env zero i last = some (failed_after_retries last)
first_final env (suc left) i last = conclude (verdict env i) (first_final env left (suc i))

native_round-result :
    (begun failed uncommitted : Option String) (again : Option String → Run)
    → (native_round begun failed uncommitted again).result
      ≡ conclude (judge begun failed uncommitted) (λ e. (again e).result)
unfolding native_round judge
native_round-result (some e) failed uncommitted again = refl
native_round-result none (some e) uncommitted again = ground arith
native_round-result none none (some e) again = ground arith
native_round-result none none none again = refl

mutex_round-result :
    (begun failed uncommitted : Option String) (again : Option String → Run)
    → (mutex_round begun failed uncommitted again).result
      ≡ conclude (judge begun failed uncommitted) (λ e. (again e).result)
unfolding mutex_round judge
mutex_round-result (some e) failed uncommitted again = refl
mutex_round-result none (some e) uncommitted again = ground arith
mutex_round-result none none (some e) again = ground arith
mutex_round-result none none none again = refl

module _ (env : Attempts) (cfg : TransactionConfig) where
  pub native_from-first_final :
      (left i : ℕ) (last : Option String)
      → (native_from env cfg left i last).result ≡ first_final env left i last
  unfolding native_from first_final
  native_from-first_final zero i last = refl
  native_from-first_final (suc left) i last =
      native_round-result _ _ _ (native_from env cfg left (suc i))
      ∙ ap (conclude (verdict env i)) (fun_ext (native_from-first_final left (suc i)))

  pub mutex_from-first_final :
      (left i : ℕ) (last : Option String)
      → (mutex_from env cfg left i last).result ≡ first_final env left i last
  unfolding mutex_from first_final
  mutex_from-first_final zero i last = refl
  mutex_from-first_final (suc left) i last =
      mutex_round-result _ _ _ (mutex_from env cfg left (suc i))
      ∙ ap (conclude (verdict env i)) (fun_ext (mutex_from-first_final left (suc i)))

module _ (env : Attempts) (cfg : TransactionConfig) where
  perform_write-first_final :
      (perform_write_with_config env cfg).result ≡ first_final env cfg.max_retries 0 none
  unfolding perform_write_with_config
  perform_write-first_final = ground (
    arith,
    mutex_from-first_final env cfg cfg.max_retries 0 none,
    native_from-first_final env cfg cfg.max_retries 0 none,
  )

-- Every attempt from `i` up to `n` asked for another one.
abbrev pub AllRetried : Attempts → ℕ → ℕ → Type 0
AllRetried env i n = (j : ℕ) → i ≤ j → j < n → (e : String) × (verdict env j ≡ retry e)

AllRetried-suc :
    (env : Attempts) (i n : ℕ) (e : String)
    → verdict env i ≡ retry e
    → AllRetried env (suc i) n
    → AllRetried env i n
AllRetried-suc env i n e h all j a b = elim (ℕ_discrete i j) [
  | yes same ↦ (e, rw (← same) h)
  | no other ↦ all j (omega arith) b
]

Verdict-cases :
    (v : Verdict)
    → (v ≡ success) ⊎ ((e : String) × (v ≡ retry e)) ⊎ ((f : Failure) × (v ≡ give_up f))
Verdict-cases success = inl refl
Verdict-cases (retry e) = inr (inl (e, refl))
Verdict-cases (give_up f) = inr (inr (f, refl))

abbrev Succeeds : Attempts → ℕ → ℕ → Type 0
Succeeds env i n = (k : ℕ) × (i ≤ k) × (k < n) × (verdict env k ≡ success) × AllRetried env i k

first_final-none :
    (env : Attempts) (left i : ℕ) (last : Option String)
    → first_final env left i last ≡ none
    → Succeeds env i (i + left)
unfolding first_final
first_final-none env zero i last h = absurd (cc)
first_final-none env (suc left) i last h = elim (Verdict-cases (verdict env i)) [
  | inl e ↦ (i, omega arith, omega arith, e, λ j a b. absurd (omega arith))
  | inr (inl (x, e)) ↦
      let (k, a, b, c, d) = first_final-none env left (suc i) (some x) (rw (e, conclude) at h) in
      (k, omega arith, omega arith, c, AllRetried-suc env i k x e d)
  | inr (inr (f, e)) ↦ absurd (ground arith)
]

-- The attempt after the retried ones decides.
first_final_at :
    (env : Attempts) (left i : ℕ) (last : Option String) (k : ℕ) (r : Option Failure)
    → i ≤ k
    → k < i + left
    → AllRetried env i k
    → ((next : Option String → Option Failure) → conclude (verdict env k) next ≡ r)
    → first_final env left i last ≡ r
unfolding first_final
first_final_at env zero i last k r a b all h = absurd (omega arith)
first_final_at env (suc left) i last k r a b all h = elim (ℕ_discrete i k) [
  | yes same ↦ rw same (h (first_final env left (suc k)))
  | no other ↦
      let (x, e) = all i (omega arith) (omega arith) in
      rw e (
        first_final_at env left (suc i) (some x) k r (omega arith) (omega arith)
          (λ j p q. all j (omega arith) q) h)
]

first_final-exhausted :
    (env : Attempts) (left i : ℕ) (last : Option String) (x : String)
    → AllRetried env i (i + suc left)
    → verdict env (i + left) ≡ retry x
    → first_final env (suc left) i last ≡ some (failed_after_retries (some x))
unfolding first_final
first_final-exhausted env zero i last x all h =
    rw (subst (λ n. verdict env n ≡ retry x) (add-zero i) h) refl
first_final-exhausted env (suc left) i last x all h =
    let (y, e) = all i (omega arith) (omega arith) in
    rw e (
      first_final-exhausted env left (suc i) (some y) x (λ j p q. all j (omega arith) (omega arith))
        (subst (λ n. verdict env n ≡ retry x) (omega arith) h))

begun_badly :
    (env : Attempts) (k : ℕ) (e : String)
    → env.begin_error k ≡ some e
    → verdict env k ≡ give_up (failed_to_begin e)
unfolding judge
begun_badly env k e h = rw h refl

-- A write returns nil exactly if one of its at most MaxRetries attempts commits and every attempt
-- before that one began its transaction and failed with a busy error of the callback or of Commit.
-- An error of Begin is not retried: when the attempts before failed in that way, it ends the write
-- and is the error that is returned, a busy error too.
pub perform_write-nil_iff :
    (env : Attempts) (cfg : TransactionConfig)
    → (((perform_write_with_config env cfg).result ≡ none)
        ↔ ((k : ℕ) × (k < cfg.max_retries) × (verdict env k ≡ success) × AllRetried env 0 k))
      × ((k : ℕ) (e : String)
          → k < cfg.max_retries
          → AllRetried env 0 k
          → env.begin_error k ≡ some e
          → (perform_write_with_config env cfg).result ≡ some (failed_to_begin e))
perform_write-nil_iff env cfg =
    let same = perform_write-first_final env cfg in
    (
      (
        λ h.
            let (k, a, b, c, d) = first_final-none env cfg.max_retries 0 none (sym same ∙ h) in
            (k, omega arith, c, d),
        λ h.
            same
            ∙ first_final_at env cfg.max_retries 0 none h.0 none (omega arith) (omega arith) h.3
                (λ next. rw h.2 refl),
      ),
      λ k e a all h.
          same
          ∙ first_final_at env cfg.max_retries 0 none k (some (failed_to_begin e)) (omega arith)
              (omega arith) all (λ next. rw (begun_badly env k e h) refl),
    )

-- The first attempt that fails with another error than a busy one ends the write with that error.
-- If every attempt is busy, the write fails with the last attempt's error.
pub perform_write-errors :
    (env : Attempts) (cfg : TransactionConfig)
    → ((k : ℕ) (f : Failure)
        → k < cfg.max_retries
        → AllRetried env 0 k
        → verdict env k ≡ give_up f
        → (perform_write_with_config env cfg).result ≡ some f)
      × ((last : ℕ) (e : String)
          → cfg.max_retries ≡ suc last
          → AllRetried env 0 (suc last)
          → verdict env last ≡ retry e
          → (perform_write_with_config env cfg).result ≡ some (failed_after_retries (some e)))
perform_write-errors env cfg =
    let same = perform_write-first_final env cfg in
    (
      λ k f a all h.
          same
          ∙ first_final_at env cfg.max_retries 0 none k (some f) (omega arith) (omega arith) all
              (λ next. rw h refl),
      λ last e n all h.
          same
          ∙ rw n (
              first_final-exhausted env last 0 none e (λ j a b. all j a (omega arith))
                (subst (λ m. verdict env m ≡ retry e) (omega arith) h)),
    )
