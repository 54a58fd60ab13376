-- ===== src/Runtime/Safety.antt =====
-- The runtime and the trading gate together: when no new entry can pass.
use kairos_agent.Base.{
  String, ◌≡◌, refl, ◌≢◌, Bool, true, false, ◌||◌, Option, none, List, [], ◌∷◌, arith, str_eq,
  str_eq_iff,
}
use kairos_agent.Base.Int.{ℤ}
use kairos_agent.Base.Lists.{All}
use kairos_agent.Entity.Agent.{
  idle-IsRestingMode, halted-IsRestingMode, IsRestingMode, RunMode, run_mode_idle,
  run_mode_paper_trading, run_mode_live_trading, run_mode_halted,
}
use kairos_agent.Runtime.Manager.{
  Status, Manager, manager_transition, set_connectivity, set_license, update_ntp_drift,
  set_integrity, enable_analytics_degrade, start_live, stop_all, manager_subscribe,
}
use kairos_agent.Runtime.Restore.{restore_safety_snapshot}
use kairos_agent.Runtime.Convert.{status_to_domain}
use kairos_agent.Runtime.Trace.{
  Op, transition_to, license_to, live, paper, stop, restore, step, run,
}
use kairos_agent.TradingGate.{GateError}
use kairos_agent.TradingGate.Allows.{production_check, production_check_iff}

-- The production gate's answer at a manager.
abbrev pub gate_answer : Manager → Option GateError
gate_answer m = production_check (status_to_domain m.status)

pub refuses_of_mode : (m : Manager) → IsRestingMode m.status.mode → gate_answer m ≢ none
unfolding status_to_domain
refuses_of_mode m r h = ground (arith, (production_check_iff (status_to_domain m.status)).0 h)

-- The calls that can take a manager out of the halt.
abbrev pub leaves_halt : Op → Bool
leaves_halt (transition_to to _ _ _) = str_eq to run_mode_idle
leaves_halt (stop _ _) = true
leaves_halt (restore _ _ _) = true
leaves_halt _ = false

abbrev IsHalted : Manager → Type 0
IsHalted m = (m.state_machine.current ≡ run_mode_halted) × (m.status.mode ≡ run_mode_halted)

-- The calls that can begin trading.
abbrev pub starts_trading : Op → Bool
starts_trading (transition_to to _ _ _) =
    str_eq to run_mode_live_trading || str_eq to run_mode_paper_trading
starts_trading (live accepted _ _) = accepted
starts_trading (paper _ _) = true
starts_trading _ = false

abbrev pub IsResting : Manager → Type 0
IsResting m = IsRestingMode m.status.mode

transition-IsResting :
    (to : RunMode) (reason : String) (now₀ now₁ : ℤ) (m : Manager)
    → str_eq to run_mode_live_trading ≡ false
    → str_eq to run_mode_paper_trading ≡ false
    → IsResting m
    → IsResting (manager_transition to reason now₀ now₁ m).0
unfolding manager_transition
transition-IsResting to reason now₀ now₁ m l p h =
    ground (arith, str_eq_iff to run_mode_live_trading, str_eq_iff to run_mode_paper_trading)

pub restored-IsResting :
    (snapshot : Status) (now₀ now₁ : ℤ) (m : Manager)
    → IsResting (restore_safety_snapshot snapshot now₀ now₁ m)
unfolding restore_safety_snapshot
restored-IsResting snapshot now₀ now₁ m =
    ground
      (arith, str_eq_iff snapshot.mode run_mode_halted, halted-IsRestingMode, idle-IsRestingMode)

step-IsResting :
    (o : Op) (m : Manager) → starts_trading o ≡ false → IsResting m → IsResting (step o m)
unfolding step set_connectivity set_license update_ntp_drift set_integrity enable_analytics_degrade
    start_live stop_all manager_subscribe
step-IsResting (transition_to to reason now₀ now₁) m n h =
    ground (arith, transition-IsResting to reason now₀ now₁ m)
step-IsResting (live accepted now₀ now₁) m n h = ground arith
step-IsResting (paper now₀ now₁) m n h = cc
step-IsResting (stop now₀ now₁) m n h =
    transition-IsResting run_mode_idle "stop all requested" now₀ now₁ m refl refl h
step-IsResting (restore snapshot now₀ now₁) m n h = restored-IsResting snapshot now₀ now₁ m
step-IsResting (license_to state now) m n h = ground arith
step-IsResting _ m n h = h

run-IsResting :
    (os : List Op) (m : Manager)
    → All (λ o. starts_trading o ≡ false) os
    → IsResting m
    → IsResting (run os m)
unfolding run
run-IsResting [] m n h = h
run-IsResting (o ∷ os) m n h = run-IsResting os (step o m) n.1 (step-IsResting o m n.0 h)

pub resting_blocks :
    (os : List Op) (m : Manager)
    → All (λ o. starts_trading o ≡ false) os
    → IsResting m
    → gate_answer (run os m) ≢ none
resting_blocks os m n h = refuses_of_mode (run os m) (run-IsResting os m n h)

-- After a restart, whatever status was stored, the production gate refuses new entries for as long
-- as nobody starts trading again: no transition to live or paper trading, no `StartPaper`, and no
-- `StartLive` with an accepted disclaimer.
pub restart_blocks_entries :
    (snapshot : Status) (now₀ now₁ : ℤ) (m : Manager) (os : List Op)
    → All (λ o. starts_trading o ≡ false) os
    → gate_answer (run os (restore_safety_snapshot snapshot now₀ now₁ m)) ≢ none
restart_blocks_entries snapshot now₀ now₁ m os n =
    resting_blocks os (restore_safety_snapshot snapshot now₀ now₁ m) n
      (restored-IsResting snapshot now₀ now₁ m)
