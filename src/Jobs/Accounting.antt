-- ===== src/Jobs/Accounting.antt =====
-- Every accepted job is accounted for.
use kairos_agent.Base.{
  ℕ, zero, suc, ◌+◌, ◌%◌, ◌^◌, ◌≤◌, ◌<◌, ◌≡◌, refl, ap, Option, none, some, List, [], ◌∷◌, arith,
  if◌then◌else◌, is_some,
}
use kairos_agent.Base.Int.{ℤ}
use kairos_agent.Base.Lists.{length, length-append}
use kairos_agent.Jobs.{
  finish_with, Priority, Manager, submit, stop, worker_takes, account, split_at, worker_finishes,
}

pub data Op : Type 0 where
  submits : ℤ → ℤ → Option ℕ → Op
  takes : ℤ → Priority → Op
  finishes : ℤ → ℕ → Op
  stops : Op

split_at-length :
    (k : ℕ) (l : List (ℕ × ℤ)) → length (split_at k l).0 + length (split_at k l).1 ≡ length l
unfolding split_at
split_at-length zero l = omega arith
split_at-length (suc k) [] = omega arith
split_at-length (suc k) (x ∷ l) = omega (arith, split_at-length k l)

module _ {W : Type 0} where
  unfoldable pub step : Op → Manager W → W → Manager W × W
  step (submits nanos now p) m w = ((submit nanos now p m).1, w)
  step (takes now priority) m w = (worker_takes now priority m, w)
  step (finishes now k) m w = worker_finishes now k m w
  step stops m w = (stop m, w)

  unfoldable pub run : List Op → Manager W → W → Manager W × W
  run [] m w = (m, w)
  run (o ∷ os) m w = run os (step o m w).0 (step o m w).1

  -- 1 for a call of `Submit` that returns no error.
  unfoldable pub accepts : Op → Manager W → ℕ
  accepts (submits nanos now p) m = if is_some (submit nanos now p m).0 then 0 else 1
  accepts _ m = 0

  unfoldable pub accepted : List Op → Manager W → W → ℕ
  accepted [] m w = 0
  accepted (o ∷ os) m w = accepts o m + accepted os (step o m w).0 (step o m w).1

  abbrev pub queued : Manager W → ℕ
  queued m =
      length m.critical_queue
      + length m.live_queue
      + length m.background_queue
      + length m.analytics_queue

  pub record IsBounded (m : Manager W) : Type 0 where
    pub critical : length m.critical_queue ≤ m.queue_size
    pub live : length m.live_queue ≤ m.queue_size
    pub background : length m.background_queue ≤ m.queue_size
    pub analytics : length m.analytics_queue ≤ m.queue_size
    pub processed_fits : m.total_jobs_processed < 2 ^ 64

  abbrev pub known : Manager W → ℕ
  known m = m.total_jobs_processed + queued m + length m.running

  submit-known :
      (nanos now : ℤ) (p : Option ℕ) (m : Manager W)
      → IsBounded m
      → let next = (submit nanos now p m).1 in
        IsBounded next × (known next ≡ known m + accepts (submits nanos now p) m)
  unfolding submit accepts
  submit-known nanos now none m h = ground arith
  submit-known nanos now (some p) m h = ground (
    arith,
    length-append m.critical_queue (p ∷ []),
    length-append m.live_queue (p ∷ []),
    length-append m.background_queue (p ∷ []),
    length-append m.analytics_queue (p ∷ []),
  )

  takes-known :
      (now : ℤ) (priority : Priority) (m : Manager W)
      → IsBounded m
      → let next = worker_takes now priority m in IsBounded next × (known next ≡ known m)
  unfolding worker_takes
  takes-known now priority m h = grind (arith, length-append m.running)

  finish_with-known :
      (now : ℤ) (before rest : List (ℕ × ℤ)) (m : Manager W) (w : W)
      → IsBounded m
      → length before + length rest ≡ length m.running
      → let next = (finish_with now before rest m w).0 in
        IsBounded next × (known next % 2 ^ 64 ≡ known m % 2 ^ 64)
  unfolding finish_with account
  finish_with-known now before [] m w h e = (h, refl)
  finish_with-known now before ((p, started) ∷ after) m w h e =
      ground (arith, length-append before after)

  finishes-known :
      (now : ℤ) (k : ℕ) (m : Manager W) (w : W)
      → IsBounded m
      → let next = (worker_finishes now k m w).0 in
        IsBounded next × (known next % 2 ^ 64 ≡ known m % 2 ^ 64)
  unfolding worker_finishes
  finishes-known now k m w h =
      finish_with-known now (split_at k m.running).0 (split_at k m.running).1 m w h
        (split_at-length k m.running)

  step-known :
      (o : Op) (m : Manager W) (w : W)
      → IsBounded m
      → let next = (step o m w).0 in
        IsBounded next × (known next % 2 ^ 64 ≡ (known m + accepts o m) % 2 ^ 64)
  unfolding step accepts stop
  step-known (submits nanos now p) m w h =
      let (b, k) = submit-known nanos now p m h in (b, ap (λ n. n % 2 ^ 64) k)
  step-known (takes now priority) m w h =
      let (b, k) = takes-known now priority m h in (b, omega (arith, k))
  step-known (finishes now k) m w h =
      let (b, e) = finishes-known now k m w h in (b, omega (arith, e))
  step-known stops m w h = ground arith

  pub run_accounts :
      (os : List Op) (m : Manager W) (w : W)
      → IsBounded m
      → let last = (run os m w).0 in
        IsBounded last
        × ((last.total_jobs_processed + queued last + length last.running) % 2 ^ 64
            ≡ (m.total_jobs_processed + queued m + length m.running + accepted os m w) % 2 ^ 64)
  unfolding run accepted
  run_accounts [] m w h = (h, omega arith)
  run_accounts (o ∷ os) m w h =
      let (b, e) = step-known o m w h in
      let (b', e') = run_accounts os (step o m w).0 (step o m w).1 b in (b', omega (arith, e, e'))
