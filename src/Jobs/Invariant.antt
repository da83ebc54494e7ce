-- ===== src/Jobs/Invariant.antt =====
-- The states of a dispatcher whose Start is not called while a Stop is waiting, and what they have
-- in common.
use cartridge.Prelude.{
  ℕ, suc, zero, ◌≡◌, ◌≤◌, ◌⊎◌, inl, inr, refl, arith, Bool, true, false, List, ◌∷◌, ◌++◌, ap, ◌∙◌,
  contains, nat_comparable, length, All, subst, sym, Bool-cases,
}
use cartridge.Jobs.{
  Loop, batch, selecting, JobDispatcher, new_job_dispatcher, start, stop_begins, Step, starts,
  stops, stop_returns, selects, ticks, exits,
}
use cartridge.Jobs.Channels.{
  All-here, All-replace, All-remove, length-middle, All-nil, contains-here, contains-bound,
  contains-next,
}

-- The states that a dispatcher reaches when Start waits for every Stop to return.
pub data ReachedSerially : JobDispatcher → Type 0 where
  made : ReachedSerially new_job_dispatcher
  starts_after : (d : JobDispatcher) → ReachedSerially d → d.waiting ≡ 0 → ReachedSerially (start d)
  others :
      (d e : JobDispatcher) → ReachedSerially d → Step d e → e.stop ≡ d.stop → ReachedSerially e

-- The number of loops, by whether the dispatcher runs and by the calls of Stop that wait.
abbrev pub Fits : Bool → ℕ → ℕ → Type 0
Fits true waiting n = (waiting ≡ 0) × (n ≡ 1)
Fits false zero n = n ≡ 0
Fits false (suc w) n = (w ≡ 0) × (n ≤ 1)

abbrev pub OnChannel : ℕ → Loop → Type 0
OnChannel c l = (l ≡ batch) ⊎ (l ≡ selecting c)

pub record IsSerial (d : JobDispatcher) : Type 0 where
  pub count : Fits d.running d.waiting (length d.loops)
  pub channel : All (OnChannel d.stop) d.loops
  pub listens : d.running ≡ true → contains d.closed d.stop ≡ false
  pub told : d.running ≡ false → 1 ≤ length d.loops → contains d.closed d.stop ≡ true
  pub bound : (c : ℕ) → contains d.closed c ≡ true → c ≤ d.stop

start_running : (d : JobDispatcher) → d.running ≡ true → start d ≡ d
unfolding start
start_running d r = simp r

start_idle :
    (d : JobDispatcher)
    → d.running ≡ false
    → start d ≡ record d { running = true; stop = suc d.stop; loops = batch ∷ d.loops }
unfolding start
start_idle d r = simp r

stop_running :
    (d : JobDispatcher)
    → d.running ≡ true
    → stop_begins d
      ≡ record d { running = false; closed = d.stop ∷ d.closed; waiting = suc d.waiting }
unfolding stop_begins
stop_running d r = simp r

stop_idle : (d : JobDispatcher) → d.running ≡ false → stop_begins d ≡ d
unfolding stop_begins
stop_idle d r = simp r

pub running_count : (r : Bool) (w n : ℕ) → r ≡ true → Fits r w n → (w ≡ 0) × (n ≡ 1)
running_count true w n r f = f
running_count false w n r f = ground arith

pub idle_count : (r : Bool) (w n : ℕ) → r ≡ false → w ≡ 0 → Fits r w n → n ≡ 0
idle_count true w n r e f = ground arith
idle_count false zero n r e f = f
idle_count false (suc w) n r e f = ground arith

fewer : (r : Bool) (w n : ℕ) → r ≡ false → Fits r w (suc n) → Fits r w n
fewer true w n r f = ground arith
fewer false zero n r f = ground arith
fewer false (suc w) n r f = (f.0, omega arith)

returned : (r : Bool) (w n : ℕ) → Fits r (suc w) n → n ≡ 0 → Fits r w n
returned true w n f e = ground arith
returned false zero n f e = e
returned false (suc w) n f e = ground arith

selecting-stop : (c s : ℕ) → OnChannel s (selecting c) → c ≡ s
selecting-stop c s (inl e) = ground arith
selecting-stop c s (inr e) = grind arith

start-IsSerial : (d : JobDispatcher) → IsSerial d → d.waiting ≡ 0 → IsSerial (start d)
start-IsSerial d s w = elim (Bool-cases d.running) [
  | inl r ↦ subst IsSerial (sym (start_running d r)) s
  | inr r ↦
      let none_left = idle_count d.running d.waiting (length d.loops) r w s.count in
      subst IsSerial (sym (start_idle d r)) (record {
        count = (w, ap suc none_left);
        channel = (inl refl, All-nil (OnChannel (suc d.stop)) d.loops none_left);
        listens = λ t. contains-next d.stop d.closed s.bound;
        told = λ t. ground arith;
        bound = λ c h. ground (arith, s.bound c h);
      })
]

stop-IsSerial : (d : JobDispatcher) → IsSerial d → IsSerial (stop_begins d)
stop-IsSerial d s = elim (Bool-cases d.running) [
  | inl r ↦
      let (w, n) = running_count d.running d.waiting (length d.loops) r s.count in
      subst IsSerial (sym (stop_running d r)) (record {
        count = (w, ground arith);
        channel = s.channel;
        listens = λ t. ground arith;
        told = λ t l. contains-here d.stop d.closed;
        bound = λ c h. contains-bound d.stop d.closed c s.bound h;
      })
  | inr r ↦ subst IsSerial (sym (stop_idle d r)) s
]

exit-IsSerial :
    (d : JobDispatcher) (c : ℕ) (ps qs : List Loop)
    → d.loops ≡ ps ++ selecting c ∷ qs
    → contains d.closed c ≡ true
    → IsSerial d
    → IsSerial (record d { loops = ps ++ qs })
exit-IsSerial d c ps qs l o s =
    let on = subst (All (OnChannel d.stop)) l s.channel in
    let told =
      subst (λ k. contains d.closed k ≡ true)
        (selecting-stop c d.stop (All-here (OnChannel d.stop) ps (selecting c) qs on)) o in
    let n = ap length l ∙ length-middle ps (selecting c) qs in
    elim (Bool-cases d.running) [
      | inl r ↦ ground (arith, s.listens r, told)
      | inr r ↦ record {
        count =
            fewer d.running d.waiting (length (ps ++ qs)) r
              (subst (Fits d.running d.waiting) n s.count);
        channel = All-remove (OnChannel d.stop) ps (selecting c) qs on;
        listens = s.listens;
        told = λ r h. told;
        bound = s.bound;
      }
    ]

Step-IsSerial : (d e : JobDispatcher) → Step d e → e.stop ≡ d.stop → IsSerial d → IsSerial e
Step-IsSerial d _ (starts _) q s = elim (Bool-cases d.running) [
  | inl r ↦ subst IsSerial (sym (start_running d r)) s
  | inr r ↦ (let k = sym (ap (λ x. x.stop) (start_idle d r)) ∙ q in ground (arith, k))
]
Step-IsSerial d _ (stops _) q s = stop-IsSerial d s
Step-IsSerial d _ (stop_returns _ n w l) q s = record {
  count =
      returned d.running n (length d.loops)
        (subst (λ k. Fits d.running k (length d.loops)) w s.count) (ap length l);
  channel = s.channel;
  listens = s.listens;
  told = s.told;
  bound = s.bound;
}
Step-IsSerial d _ (selects _ ps qs l) q s =
    let n =
      ap length l ∙ length-middle ps batch qs ∙ sym (length-middle ps (selecting d.stop) qs) in
    record {
      count = subst (Fits d.running d.waiting) n s.count;
      channel =
          All-replace (OnChannel d.stop) ps batch (selecting d.stop) qs
            (subst (All (OnChannel d.stop)) l s.channel) (inr refl);
      listens = s.listens;
      told = λ r h. s.told r (subst (λ k. 1 ≤ k) (sym n) h);
      bound = s.bound;
    }
Step-IsSerial d _ (ticks _ c ps qs l) q s =
    let n = ap length l ∙ length-middle ps (selecting c) qs ∙ sym (length-middle ps batch qs) in
    record {
      count = subst (Fits d.running d.waiting) n s.count;
      channel =
          All-replace (OnChannel d.stop) ps (selecting c) batch qs
            (subst (All (OnChannel d.stop)) l s.channel) (inl refl);
      listens = s.listens;
      told = λ r h. s.told r (subst (λ k. 1 ≤ k) (sym n) h);
      bound = s.bound;
    }
Step-IsSerial d _ (exits _ c ps qs l o) q s = exit-IsSerial d c ps qs l o s

pub ReachedSerially-IsSerial : (d : JobDispatcher) → ReachedSerially d → IsSerial d
unfolding new_job_dispatcher
ReachedSerially-IsSerial _ made = record {
  count = refl;
  channel = tt;
  listens = λ r. ground arith;
  told = λ r l. ground arith;
  bound = λ c h. ground arith;
}
ReachedSerially-IsSerial _ (starts_after d r w) = start-IsSerial d (ReachedSerially-IsSerial d r) w
ReachedSerially-IsSerial e (others d _ r t q) = Step-IsSerial d e t q (ReachedSerially-IsSerial d r)
