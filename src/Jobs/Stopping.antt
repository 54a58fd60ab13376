-- ===== src/Jobs/Stopping.antt =====
-- When `Submit` accepts a job, before and after `Stop`.
use kairos_agent.Base.{
  ℕ, ◌+◌, ◌%◌, ◌^◌, ◌<◌, ◌≡◌, refl, ◌∙◌, ◌↔◌, true, false, none, some, List, [], ◌∷◌, arith,
}
use kairos_agent.Base.Int.{ℤ, eqb_ℤ}
use kairos_agent.Base.Lists.{length}
use kairos_agent.Jobs.{
  Priority, Manager, split_at, queue_of, submit, stop, worker_takes, account, finish_with,
  worker_finishes,
}
use kairos_agent.Jobs.Accounting.{
  known, run_accounts, Op, submits, takes, finishes, stops, step, run, accepts, accepted, queued,
  IsBounded,
}

module _ {W : Type 0} where
  -- On a running manager a job is accepted exactly when the queue of its own priority has room; the
  -- queue of any other priority, full or not, does not matter and stays as it is.
  pub submit_iff_room :
      (nanos now : ℤ) (p : ℕ) (m : Manager W) (queue : List ℕ) (other : Priority)
      → m.stopped ≡ false
      → queue_of (m.heap p).priority m ≡ some queue
      → eqb_ℤ other (m.heap p).priority ≡ false
      → let (err, next) = submit nanos now (some p) m in
        ((err ≡ none) ↔ (length queue < m.queue_size)) × (queue_of other next ≡ queue_of other m)
  unfolding submit queue_of
  submit_iff_room nanos now p m queue other running found ne =
      ((ground arith, ground arith), ground arith)

  finish_with-stopped :
      (now : ℤ) (before rest : List (ℕ × ℤ)) (m : Manager W) (w : W)
      → (finish_with now before rest m w).0.stopped ≡ m.stopped
  unfolding finish_with account
  finish_with-stopped now before [] m w = refl
  finish_with-stopped now before ((p, started) ∷ after) m w = refl

  step-stopped :
      (o : Op) (m : Manager W) (w : W)
      → m.stopped ≡ true
      → ((step o m w).0.stopped ≡ true) × (accepts o m ≡ 0)
  unfolding step accepts submit stop worker_takes worker_finishes
  step-stopped (submits nanos now none) m w h = ground arith
  step-stopped (submits nanos now (some p)) m w h = ground arith
  step-stopped (takes now priority) m w h = ground arith
  step-stopped (finishes now k) m w h =
      (finish_with-stopped now (split_at k m.running).0 (split_at k m.running).1 m w ∙ h, refl)
  step-stopped stops m w h = ground arith

  run-stopped : (os : List Op) (m : Manager W) (w : W) → m.stopped ≡ true → accepted os m w ≡ 0
  unfolding accepted
  run-stopped [] m w h = refl
  run-stopped (o ∷ os) m w h =
      let (s, a) = step-stopped o m w h in
      omega (arith, a, run-stopped os (step o m w).0 (step o m w).1 s)

  stop-stopped : (m : Manager W) → (stop m).stopped ≡ true
  unfolding stop
  stop-stopped m = ground arith

  stop-known : (m : Manager W) → IsBounded m → IsBounded (stop m) × (known (stop m) ≡ known m)
  unfolding stop
  stop-known m h = ground arith

  -- After `Stop` no submission is accepted, whatever the workers do, and no job is lost or doubled:
  -- the jobs that are processed, waiting or running stay as many as they were (the counter of the
  -- processed jobs is a 64-bit word). Nothing says that the waiting jobs are ever run.
  pub stop_ends_submission :
      (os : List Op) (m : Manager W) (w : W)
      → IsBounded m
      → let last = (run os (stop m) w).0 in
        (accepted os (stop m) w ≡ 0)
        × ((last.total_jobs_processed + queued last + length last.running) % 2 ^ 64
            ≡ (m.total_jobs_processed + queued m + length m.running) % 2 ^ 64)
  stop_ends_submission os m w h =
      let (b, k) = stop-known m h in
      let none_accepted = run-stopped os (stop m) w (stop-stopped m) in
      (none_accepted, omega (arith, (run_accounts os (stop m) w b).1, none_accepted, k))
