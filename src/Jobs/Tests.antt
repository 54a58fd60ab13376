-- ===== src/Jobs/Tests.antt =====
-- The job manager on concrete inputs. The world is the list of the jobs that ran.
use kairos_agent.Base.{ℕ, zero, suc, ◌≡◌, refl, none, some, List, [], ◌∷◌, ◌++◌}
use kairos_agent.Base.Int.{ℤ, pos, ◌+ℤ◌, ◌-ℤ◌}
use kairos_agent.Base.Lists.{length}
use kairos_agent.Base.Dict.{insert, erase}
use kairos_agent.Base.Show.{show_ℤ}
use kairos_agent.Events.Outcome.{Outcome, returned, panicked}
use kairos_agent.Jobs.{
  priority_critical, priority_live, priority_string, Job, default_config, Manager, split_at,
  new_manager, submit, worker_takes, worker_finishes,
}
use kairos_agent.Jobs.Accounting.{Op, submits, takes, finishes, step, run}

abbrev job_of : ℤ → Outcome → ℕ → Job (List ℕ)
job_of priority outcome n = record {
  id = "";
  name = "job";
  priority = priority;
  fn = some (λ w. (outcome, w ++ n ∷ []));
  created_at = pos 0;
  started_at = none;
  completed_at = none;
  job_error = none;
}

abbrev heap : ℕ → Job (List ℕ)
heap zero = job_of priority_critical returned 0
heap (suc zero) = job_of priority_critical (panicked "boom") 1
heap (suc (suc n)) = job_of priority_live returned (suc (suc n))

abbrev small : Manager (List ℕ)
small = new_manager (record (default_config) { queue_size = 1 }) heap

abbrev day : List Op
day =
    submits (pos 7) (pos 7) (some 1)
    ∷ submits (pos 8) (pos 8) (some 0)
    ∷ submits (pos 9) (pos 9) (some 2)
    ∷ takes (pos 10) priority_critical
    ∷ finishes (pos 12) 0
    ∷ []

day_runs :
    let (last, w) = run day small [] in
    (w ≡ 1 ∷ [])
    × (last.total_jobs_failed ≡ 1)
    × ((last.heap 1).id ≡ "job_7")
    × ((last.heap 1).job_error ≡ some "job panic: boom")
    × (last.live_queue ≡ 2 ∷ [])
    × (length last.active_jobs ≡ 1)
unfolding run step submit worker_takes worker_finishes new_manager default_config insert erase
    show_ℤ ◌+ℤ◌ ◌-ℤ◌ split_at
day_runs = (refl, refl, refl, refl, refl, refl)

live_named : priority_string priority_live ≡ "live"
unfolding priority_string
live_named = refl
