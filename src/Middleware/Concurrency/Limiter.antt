-- ===== src/Middleware/Concurrency/Limiter.antt =====
-- middleware/concurrency.go: the limiter with its semaphores for reads and for writes. An Acquire
-- that would wait gives `none`.
use cartridge.Prelude.{
  ℕ, ◌≡◌, refl, ap, ◌∙◌, arith, Option, none, some, List, [], ◌∷◌, Option-cases, sym,
}
use cartridge.Middleware.Concurrency.{Semaphore}

pub record ConcurrencyLimiter {ℓ} (S : Type ℓ) : Type ℓ where
  pub read_sem : S
  pub write_sem : S
  pub timeout : ℕ

pub data Operation : Type 0 where
  acquires_read acquires_write releases_read releases_write : Operation

module _ {ℓ} {S : Type ℓ} {read_limit write_limit : ℕ} (reads : Semaphore S read_limit)
    (writes : Semaphore S write_limit) where
  unfoldable pub new_concurrency_limiter : ℕ → ConcurrencyLimiter S
  new_concurrency_limiter timeout = record {
    read_sem = reads.fresh;
    write_sem = writes.fresh;
    timeout = timeout;
  }

  abbrev with_read : ConcurrencyLimiter S → Option S → Option (ConcurrencyLimiter S)
  with_read l none = none
  with_read l (some s) = some (record l { read_sem = s })

  abbrev with_write : ConcurrencyLimiter S → Option S → Option (ConcurrencyLimiter S)
  with_write l none = none
  with_write l (some s) = some (record l { write_sem = s })

  unfoldable pub acquire_read : ConcurrencyLimiter S → Option (ConcurrencyLimiter S)
  acquire_read l = with_read l (reads.grant l.read_sem)

  unfoldable pub acquire_write : ConcurrencyLimiter S → Option (ConcurrencyLimiter S)
  acquire_write l = with_write l (writes.grant l.write_sem)

  unfoldable pub release_read : ConcurrencyLimiter S → ConcurrencyLimiter S
  release_read l = record l { read_sem = reads.release l.read_sem }

  unfoldable pub release_write : ConcurrencyLimiter S → ConcurrencyLimiter S
  release_write l = record l { write_sem = writes.release l.write_sem }

  -- An operation at a limiter; an Acquire that waits leaves it as it is.
  abbrev or_waits : ConcurrencyLimiter S → Option (ConcurrencyLimiter S) → ConcurrencyLimiter S
  or_waits l none = l
  or_waits l (some l') = l'

  pub operate : Operation → ConcurrencyLimiter S → ConcurrencyLimiter S
  operate acquires_read l = or_waits l (acquire_read l)
  operate acquires_write l = or_waits l (acquire_write l)
  operate releases_read l = release_read l
  operate releases_write l = release_write l

  pub run : List Operation → ConcurrencyLimiter S → ConcurrencyLimiter S
  run [] l = l
  run (o ∷ os) l = run os (operate o l)

  abbrev pub reads_of : List Operation → List Operation
  reads_of [] = []
  reads_of (acquires_read ∷ os) = acquires_read ∷ reads_of os
  reads_of (acquires_write ∷ os) = reads_of os
  reads_of (releases_read ∷ os) = releases_read ∷ reads_of os
  reads_of (releases_write ∷ os) = reads_of os

  abbrev granted : S → Option S → S
  granted s none = s
  granted s (some s') = s'

  acquire_read-read_sem :
      (l : ConcurrencyLimiter S)
      → (operate acquires_read l).read_sem ≡ granted l.read_sem (reads.grant l.read_sem)
  unfolding operate acquire_read
  acquire_read-read_sem l = ground (arith, Option-cases (reads.grant l.read_sem))

  acquire_write-read_sem :
      (l : ConcurrencyLimiter S) → (operate acquires_write l).read_sem ≡ l.read_sem
  unfolding operate acquire_write
  acquire_write-read_sem l = ground (arith, Option-cases (writes.grant l.write_sem))

  run-same_reads :
      (os : List Operation) (l k : ConcurrencyLimiter S)
      → l.read_sem ≡ k.read_sem
      → (run os l).read_sem ≡ (run (reads_of os) k).read_sem
  unfolding run
  run-same_reads [] l k e = e
  run-same_reads (acquires_read ∷ os) l k e =
      run-same_reads os (operate acquires_read l) (operate acquires_read k) (
        acquire_read-read_sem l
        ∙ ap (λ s. granted s (reads.grant s)) e
        ∙ sym (acquire_read-read_sem k))
  run-same_reads (acquires_write ∷ os) l k e =
      run-same_reads os (operate acquires_write l) k (acquire_write-read_sem l ∙ e)
  run-same_reads (releases_read ∷ os) l k e =
      run-same_reads os (operate releases_read l) (operate releases_read k)
        (unfold operate release_read in ap reads.release e)
  run-same_reads (releases_write ∷ os) l k e =
      run-same_reads os (operate releases_write l) k (unfold operate release_write in e)

  -- Whatever a limiter is asked, its semaphore for reads ends as if no write had been asked for: a
  -- write that holds or waits for its semaphore keeps no read out.
  pub run-reads_of :
      (os : List Operation) (l : ConcurrencyLimiter S)
      → (run os l).read_sem ≡ (run (reads_of os) l).read_sem
  run-reads_of os l = run-same_reads os l l refl
