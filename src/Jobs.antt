-- ===== src/Jobs.antt =====
-- internal/service/jobs/manager.go: the job manager. Jobs are shared by pointer between the caller,
-- the queues and the workers, so they stand in a heap. The functions of the jobs change a world `W`.
-- A worker's step is the taking of a job (`worker_takes`), and the run and the accounting of it
-- (`worker_finishes`); any number of workers take and finish in any order.
pub mod Accounting
pub mod Stopping
mod Tests
use kairos_agent.Base.{
  ℕ, zero, suc, String, Bool, true, false, Option, none, some, List, [], ◌∷◌, ◌++◌, str_eq, append,
  ltb, ◌==◌, if◌then◌else◌, is_some,
}
use kairos_agent.Base.Int.{ℤ, pos, ◌+ℤ◌, ◌-ℤ◌, eqb_ℤ}
use kairos_agent.Base.Words.{incr64}
use kairos_agent.Base.Lists.{length}
use kairos_agent.Base.Dict.{Dict, insert, erase}
use kairos_agent.Base.Show.{show_ℤ}
use kairos_agent.Events.Outcome.{Outcome, returned, returned_error, panicked}

abbrev pub Priority : Type 0
Priority = ℤ

abbrev pub priority_critical : Priority
priority_critical = pos 0

abbrev pub priority_live : Priority
priority_live = pos 1

abbrev pub priority_background : Priority
priority_background = pos 2

abbrev pub priority_analytics : Priority
priority_analytics = pos 3

-- `Priority.String`
unfoldable pub priority_string : Priority → String
priority_string p =
    if eqb_ℤ p priority_critical
    then "critical"
    else if eqb_ℤ p priority_live
    then "live"
    else if eqb_ℤ p priority_background
    then "background"
    else if eqb_ℤ p priority_analytics
    then "analytics"
    else "unknown"

pub record Job (W : Type 0) : Type 0 where
  pub id : String
  pub name : String
  pub priority : Priority
  pub fn : Option (W → Outcome × W)
  pub created_at : ℤ
  pub started_at : Option ℤ
  pub completed_at : Option ℤ
  pub job_error : Option String

pub record Config : Type 0 where
  pub critical_workers : ℤ
  pub live_workers : ℤ
  pub background_workers : ℤ
  pub analytics_workers : ℤ
  pub queue_size : ℕ

unfoldable pub default_config : Config
default_config = record {
  critical_workers = pos 4;
  live_workers = pos 2;
  background_workers = pos 2;
  analytics_workers = pos 1;
  queue_size = 100;
}

-- The queues hold pointers, the oldest first, and each at most `queue_size`; `running` are the jobs
-- that workers have taken, with the time. `stopped` also says that the queues are closed and the
-- context is done. The `int` counters are 64-bit patterns.
pub record Manager (W : Type 0) : Type 0 where
  pub critical_queue : List ℕ
  pub live_queue : List ℕ
  pub background_queue : List ℕ
  pub analytics_queue : List ℕ
  pub queue_size : ℕ
  pub active_jobs : Dict ℕ
  pub total_jobs_processed : ℕ
  pub total_jobs_failed : ℕ
  pub job_processing_time_sum : ℤ
  pub stopped : Bool
  pub running : List (ℕ × ℤ)
  pub heap : ℕ → Job W

pub data SubmitError : Type 0 where
  manager_stopped : SubmitError
  job_nil : SubmitError
  unknown_priority : Priority → SubmitError
  queue_full : String → SubmitError

-- The running jobs before the given place, and those from it on.
unfoldable pub split_at : ℕ → List (ℕ × ℤ) → List (ℕ × ℤ) × List (ℕ × ℤ)
split_at zero l = ([], l)
split_at (suc k) [] = ([], [])
split_at (suc k) (x ∷ l) = let (a, b) = split_at k l in (x ∷ a, b)

module _ {W : Type 0} where
  unfoldable pub new_manager : Config → (ℕ → Job W) → Manager W
  new_manager config heap = record {
    critical_queue = [];
    live_queue = [];
    background_queue = [];
    analytics_queue = [];
    queue_size = config.queue_size;
    active_jobs = [];
    total_jobs_processed = 0;
    total_jobs_failed = 0;
    job_processing_time_sum = pos 0;
    stopped = false;
    running = [];
    heap = heap;
  }

  abbrev write : ℕ → Job W → (ℕ → Job W) → ℕ → Job W
  write p j heap q = if q == p then j else heap q

  -- The queue of a priority, and the manager with another one.
  unfoldable pub queue_of : Priority → Manager W → Option (List ℕ)
  queue_of p m =
      if eqb_ℤ p priority_critical
      then some m.critical_queue
      else if eqb_ℤ p priority_live
      then some m.live_queue
      else if eqb_ℤ p priority_background
      then some m.background_queue
      else if eqb_ℤ p priority_analytics
      then some m.analytics_queue
      else none

  unfoldable pub set_queue : Priority → List ℕ → Manager W → Manager W
  set_queue p l m =
      if eqb_ℤ p priority_critical
      then record m { critical_queue = l }
      else if eqb_ℤ p priority_live
      then record m { live_queue = l }
      else if eqb_ℤ p priority_background
      then record m { background_queue = l }
      else if eqb_ℤ p priority_analytics
      then record m { analytics_queue = l }
      else m

  -- The non-blocking send of `Submit`.
  unfoldable pub send :
      ℕ → Priority → String → Option (List ℕ) → Manager W → Option SubmitError × Manager W
  unfolding set_queue priority_string
  send p priority id none m = (some (unknown_priority priority), m)
  send p priority id (some queue) m =
      if ltb (length queue) m.queue_size
      then (
        none,
        set_queue priority (queue ++ p ∷ []) (record m { active_jobs = insert id p m.active_jobs }),
      )
      else (some (queue_full (priority_string priority)), m)

  -- `job.ID` and `job.CreatedAt`; `nanos` is the clock that the id is made of.
  abbrev stamped : ℤ → ℤ → Job W → Job W
  stamped nanos now j = record j {
    id = if str_eq j.id "" then append "job_" (show_ℤ nanos) else j.id;
    created_at = now;
  }

  -- `Submit`; `none` is the nil pointer.
  unfoldable pub submit : ℤ → ℤ → Option ℕ → Manager W → Option SubmitError × Manager W
  unfolding send queue_of
  submit nanos now none m = if m.stopped then (some manager_stopped, m) else (some job_nil, m)
  submit nanos now (some p) m =
      if m.stopped
      then (some manager_stopped, m)
      else let job = stamped nanos now (m.heap p) in
        let m' = record m { heap = write p job m.heap } in
        send p job.priority job.id (queue_of job.priority m') m'

  -- `Stop`, until it waits for the workers.
  unfoldable pub stop : Manager W → Manager W
  stop m = if m.stopped then m else record m { stopped = true }

  take_head : ℤ → Priority → Option (List ℕ) → Manager W → Manager W
  unfolding set_queue
  take_head now priority none m = m
  take_head now priority (some []) m = m
  take_head now priority (some (p ∷ queue)) m =
      let m' = set_queue priority queue m in
      record m' {
        running = m'.running ++ (p, now) ∷ [];
        heap = write p (record (m'.heap p) { started_at = some now }) m'.heap;
      }

  -- A worker of the priority takes a job. (After `Stop` its `select` may still do so.)
  unfoldable pub worker_takes : ℤ → Priority → Manager W → Manager W
  unfolding take_head queue_of
  worker_takes now priority m = take_head now priority (queue_of priority m) m

  -- `runJob`
  unfoldable pub run_job : Job W → W → Option String × W
  run_job j w = elim j.fn [
    | none ↦ (some "job function is nil", w)
    | some f ↦
        let (outcome, w') = f w in
        (
          elim outcome [
            | returned ↦ none
            | returned_error e ↦ some e
            | panicked e ↦ some (append "job panic: " e)
          ],
          w',
        )
  ]

  -- `executeJob` after the run.
  unfoldable pub account : ℕ → ℤ → ℤ → Option String → Manager W → Manager W
  account p started now err m =
      let job = m.heap p in
      record m {
        heap = write p (record job { completed_at = some now; job_error = err }) m.heap;
        total_jobs_processed = incr64 m.total_jobs_processed;
        total_jobs_failed = if is_some err then incr64 m.total_jobs_failed else m.total_jobs_failed;
        job_processing_time_sum = m.job_processing_time_sum +ℤ (now -ℤ started);
        active_jobs = erase job.id m.active_jobs;
      }

  unfoldable pub finish_with : ℤ → List (ℕ × ℤ) → List (ℕ × ℤ) → Manager W → W → Manager W × W
  unfolding run_job account
  finish_with now before [] m w = (m, w)
  finish_with now before ((p, started) ∷ after) m w =
      let (err, w') = run_job (m.heap p) w in
      (account p started now err (record m { running = before ++ after }), w')

  -- The worker with the running job of this place runs it to its end.
  unfoldable pub worker_finishes : ℤ → ℕ → Manager W → W → Manager W × W
  unfolding finish_with
  worker_finishes now k m w =
      let (before, rest) = split_at k m.running in finish_with now before rest m w
