-- ===== src/Runtime/Consent.antt =====
-- Live trading is entered on purpose alone.
use kairos_agent.Base.{
  String, ◌≡◌, refl, ◌≢◌, Bool, false, List, [], ◌∷◌, arith, str_eq, str_eq_iff,
}
use kairos_agent.Base.Int.{ℤ}
use kairos_agent.Base.Lists.{All}
use kairos_agent.Entity.Agent.{
  RunMode, run_mode_idle, run_mode_paper_trading, run_mode_live_trading, run_mode_halted,
  halted-IsRestingMode, idle-IsRestingMode,
}
use kairos_agent.Runtime.Manager.{
  Manager, new_manager, manager_transition, set_connectivity, set_license, update_ntp_drift,
  set_integrity, enable_analytics_degrade, start_live, start_paper, stop_all, manager_subscribe,
}
use kairos_agent.Runtime.Restore.{restore_safety_snapshot}
use kairos_agent.Runtime.Trace.{
  Op, transition_to, license_to, live, paper, stop, restore, step, run,
}

-- The calls that put a manager into live trading: `StartLive` with an accepted disclaimer, and the
-- bare transition.
abbrev pub enters_live : Op → Bool
enters_live (transition_to to _ _ _) = str_eq to run_mode_live_trading
enters_live (live accepted _ _) = accepted
enters_live _ = false

abbrev IsNotLive : Manager → Type 0
IsNotLive m = m.status.mode ≢ run_mode_live_trading

transition-IsNotLive :
    (to : RunMode) (reason : String) (now₀ now₁ : ℤ) (m : Manager)
    → str_eq to run_mode_live_trading ≡ false
    → IsNotLive m
    → IsNotLive (manager_transition to reason now₀ now₁ m).0
unfolding manager_transition
transition-IsNotLive to reason now₀ now₁ m n h = ground (arith, str_eq_iff to run_mode_live_trading)

step-IsNotLive : (o : Op) (m : Manager) → enters_live o ≡ false → IsNotLive m → IsNotLive (step o m)
unfolding step set_connectivity set_license update_ntp_drift set_integrity enable_analytics_degrade
    start_live start_paper stop_all restore_safety_snapshot manager_subscribe
step-IsNotLive (transition_to to reason now₀ now₁) m n h =
    transition-IsNotLive to reason now₀ now₁ m n h
step-IsNotLive (live accepted now₀ now₁) m n h = ground arith
step-IsNotLive (paper now₀ now₁) m n h =
    transition-IsNotLive run_mode_paper_trading "paper trading requested" now₀ now₁ m refl h
step-IsNotLive (stop now₀ now₁) m n h =
    transition-IsNotLive run_mode_idle "stop all requested" now₀ now₁ m refl h
step-IsNotLive (restore snapshot now₀ now₁) m n h =
    ground (
      arith,
      str_eq_iff snapshot.mode run_mode_halted,
      halted-IsRestingMode.0,
      idle-IsRestingMode.0,
    )
step-IsNotLive (license_to state now) m n h = ground arith
step-IsNotLive _ m n h = h

run-IsNotLive :
    (os : List Op) (m : Manager)
    → All (λ o. enters_live o ≡ false) os
    → IsNotLive m
    → IsNotLive (run os m)
unfolding run
run-IsNotLive [] m n h = h
run-IsNotLive (o ∷ os) m n h = run-IsNotLive os (step o m) n.1 (step-IsNotLive o m n.0 h)

-- A new manager trades live only if some call was `StartLive` with the disclaimer accepted or a
-- transition to live trading; restoring a snapshot of live trading does not do it.
pub live_needs_consent :
    (version : String) (now₀ now₁ : ℤ) (os : List Op)
    → All (λ o. enters_live o ≡ false) os
    → (run os (new_manager version now₀ now₁)).status.mode ≢ run_mode_live_trading
unfolding new_manager
live_needs_consent version now₀ now₁ os n =
    run-IsNotLive os (new_manager version now₀ now₁) n idle-IsRestingMode.0
