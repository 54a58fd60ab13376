-- ===== src/Runtime/Manager.antt =====
-- internal/runtime/runtime.go and models.go: the runtime manager. `Manager.mu` makes each method
-- atomic. A method that reads the clock takes the reading; `Transition` reads it twice.
use kairos_agent.Base.{
  ℕ, String, Bool, true, false, not, ◌&&◌, Option, none, some, str_eq, append, if◌then◌else◌,
}
use kairos_agent.Base.Int.{ℤ, pos, ltb_ℤ}
use kairos_agent.Entity.Agent.{
  RunMode, run_mode_idle, run_mode_paper_trading, run_mode_live_trading, run_mode_halted,
  ConnectivityState, connectivity_connected, LicenseState, license_demo, license_risk_only,
  IntegrityState, integrity_trusted,
}
use kairos_agent.Runtime.StateMachine.{
  Channel, StateMachine, new_state_machine, TransitionError, transition, subscribe,
}

pub record Status : Type 0 where
  pub mode : RunMode
  pub connectivity : ConnectivityState
  pub license : LicenseState
  pub integrity : IntegrityState
  pub ntp_drift : ℤ
  pub new_entries_blocked : Bool
  pub halt_reason : String
  pub halted_at_utc : Option ℤ
  pub banner : String
  pub analytics_degraded : Bool
  pub last_updated_at_utc : ℤ

pub record Manager : Type 0 where
  pub state_machine : StateMachine
  pub status : Status
  pub version : String

unfoldable pub new_manager : String → ℤ → ℤ → Manager
unfolding new_state_machine
new_manager version now₀ now₁ = record {
  state_machine = new_state_machine now₀;
  status = record {
    mode = run_mode_idle;
    connectivity = connectivity_connected;
    license = license_demo;
    integrity = integrity_trusted;
    ntp_drift = pos 0;
    new_entries_blocked = false;
    halt_reason = "";
    halted_at_utc = none;
    banner = "";
    analytics_degraded = false;
    last_updated_at_utc = now₁;
  };
  version = version;
}

-- `haltedBanner` of restore.go.
unfoldable pub halted_banner : String → String
halted_banner reason = if str_eq reason "" then "halted" else append "halted: " reason

pub data Error : Type 0 where
  live_trading_requires_disclaimer : Error
  transition_error : TransitionError → Error

entered : RunMode → String → ℤ → Status → Status
entered to reason now s =
    let next = record s { mode = to } in
    if str_eq to run_mode_halted
    then record next {
      halt_reason = reason;
      halted_at_utc = some now;
      new_entries_blocked = true;
      banner = halted_banner reason;
      last_updated_at_utc = now;
    }
    else if str_eq to run_mode_idle && not (str_eq s.halt_reason "")
    then record next {
      halt_reason = "";
      halted_at_utc = none;
      new_entries_blocked = false;
      banner = "";
      last_updated_at_utc = now;
    }
    else record next { last_updated_at_utc = now }

-- `Manager.Transition`
unfoldable pub manager_transition : RunMode → String → ℤ → ℤ → Manager → Manager × Option Error
unfolding transition entered
manager_transition to reason now₀ now₁ m =
    let (sm, refused) = transition to reason now₀ m.state_machine in
    elim refused [
      | some e ↦ (record m { state_machine = sm }, some (transition_error e))
      | none ↦ (record m { state_machine = sm; status = entered to reason now₁ m.status }, none)
    ]

unfoldable pub set_connectivity : ConnectivityState → ℤ → Manager → Manager
set_connectivity state now m = record m {
  status = record (m.status) { connectivity = state; last_updated_at_utc = now };
}

unfoldable pub set_license : LicenseState → ℤ → Manager → Manager
set_license state now m =
    let s = record (m.status) { license = state; last_updated_at_utc = now } in
    record m {
      status =
          if str_eq state license_risk_only then record s { banner = "license expired" } else s;
    }

-- 500 and 200 milliseconds.
abbrev pub drift_high : ℤ
drift_high = pos 500_000_000

abbrev pub drift_low : ℤ
drift_low = pos 200_000_000

unfoldable pub update_ntp_drift : ℤ → ℤ → Manager → Manager
update_ntp_drift drift now m = record m {
  status = record (m.status) {
    ntp_drift = drift;
    new_entries_blocked =
        if ltb_ℤ drift_high drift
        then true
        else if ltb_ℤ drift drift_low
        then false
        else m.status.new_entries_blocked;
    last_updated_at_utc = now;
  };
}

unfoldable pub set_integrity : IntegrityState → ℤ → Manager → Manager
set_integrity state now m = record m {
  status = record (m.status) { integrity = state; last_updated_at_utc = now };
}

unfoldable pub enable_analytics_degrade : ℤ → Manager → Manager
enable_analytics_degrade now m = record m {
  status = record (m.status) { analytics_degraded = true; last_updated_at_utc = now };
}

unfoldable pub start_live : Bool → ℤ → ℤ → Manager → Manager × Option Error
start_live disclaimer_accepted now₀ now₁ m =
    if not disclaimer_accepted
    then (m, some live_trading_requires_disclaimer)
    else manager_transition run_mode_live_trading "live trading requested" now₀ now₁ m

unfoldable pub start_paper : ℤ → ℤ → Manager → Manager × Option Error
start_paper = manager_transition run_mode_paper_trading "paper trading requested"

unfoldable pub stop_all : ℤ → ℤ → Manager → Manager × Option Error
stop_all = manager_transition run_mode_idle "stop all requested"

unfoldable pub manager_subscribe : Channel → Manager → Manager × ℕ
unfolding subscribe
manager_subscribe c m =
    let (sm, id) = subscribe c m.state_machine in (record m { state_machine = sm }, id)
