-- ===== src/Runtime/Trace.antt =====
-- The exported methods of the runtime manager as steps, and what every sequence of them keeps.
use kairos_agent.Base.{String, ◌≡◌, refl, Bool, List, [], ◌∷◌, arith, str_eq_iff}
use kairos_agent.Base.Int.{ℤ}
use kairos_agent.Entity.Agent.{
  RunMode, run_mode_idle, run_mode_paper_trading, run_mode_live_trading, ConnectivityState,
  LicenseState, IntegrityState,
}
use kairos_agent.Runtime.StateMachine.{Channel}
use kairos_agent.Runtime.Manager.{
  Status, Manager, manager_transition, set_connectivity, set_license, update_ntp_drift,
  set_integrity, enable_analytics_degrade, start_live, start_paper, stop_all, manager_subscribe,
}
use kairos_agent.Runtime.Restore.{restore_safety_snapshot}

-- Each carries the clock readings of its call.
pub data Op : Type 0 where
  transition_to : RunMode → String → ℤ → ℤ → Op
  connectivity_to : ConnectivityState → ℤ → Op
  license_to : LicenseState → ℤ → Op
  drift_to : ℤ → ℤ → Op
  integrity_to : IntegrityState → ℤ → Op
  degrade_analytics : ℤ → Op
  live : Bool → ℤ → ℤ → Op
  paper : ℤ → ℤ → Op
  stop : ℤ → ℤ → Op
  restore : Status → ℤ → ℤ → Op
  subscribe_to : Channel → Op

unfoldable pub step : Op → Manager → Manager
step (transition_to to reason now₀ now₁) m = (manager_transition to reason now₀ now₁ m).0
step (connectivity_to state now) m = set_connectivity state now m
step (license_to state now) m = set_license state now m
step (drift_to drift now) m = update_ntp_drift drift now m
step (integrity_to state now) m = set_integrity state now m
step (degrade_analytics now) m = enable_analytics_degrade now m
step (live accepted now₀ now₁) m = (start_live accepted now₀ now₁ m).0
step (paper now₀ now₁) m = (start_paper now₀ now₁ m).0
step (stop now₀ now₁) m = (stop_all now₀ now₁ m).0
step (restore snapshot now₀ now₁) m = restore_safety_snapshot snapshot now₀ now₁ m
step (subscribe_to c) m = (manager_subscribe c m).0

unfoldable pub run : List Op → Manager → Manager
run [] m = m
run (o ∷ os) m = run os (step o m)

abbrev pub Agrees : Manager → Type 0
Agrees m = m.state_machine.current ≡ m.status.mode

manager_transition-Agrees :
    (to : RunMode) (reason : String) (now₀ now₁ : ℤ) (m : Manager)
    → Agrees m
    → Agrees (manager_transition to reason now₀ now₁ m).0
unfolding manager_transition
manager_transition-Agrees to reason now₀ now₁ m h =
    ground (arith, str_eq_iff m.state_machine.current to)

step-Agrees : (o : Op) (m : Manager) → Agrees m → Agrees (step o m)
unfolding step set_connectivity set_license update_ntp_drift set_integrity enable_analytics_degrade
    start_live start_paper stop_all restore_safety_snapshot manager_subscribe
step-Agrees (transition_to to reason now₀ now₁) m h =
    manager_transition-Agrees to reason now₀ now₁ m h
step-Agrees (live accepted now₀ now₁) m h =
    ground (
      arith,
      manager_transition-Agrees run_mode_live_trading "live trading requested" now₀ now₁ m h,
    )
step-Agrees (paper now₀ now₁) m h =
    manager_transition-Agrees run_mode_paper_trading "paper trading requested" now₀ now₁ m h
step-Agrees (stop now₀ now₁) m h =
    manager_transition-Agrees run_mode_idle "stop all requested" now₀ now₁ m h
step-Agrees (license_to state now) m h = ground arith
step-Agrees (restore snapshot now₀ now₁) m h = refl
step-Agrees _ m h = h

pub run-Agrees : (os : List Op) (m : Manager) → Agrees m → Agrees (run os m)
unfolding run
run-Agrees [] m h = h
run-Agrees (o ∷ os) m h = run-Agrees os (step o m) (step-Agrees o m h)
