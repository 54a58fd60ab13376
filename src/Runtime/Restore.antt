-- ===== src/Runtime/Restore.antt =====
-- internal/runtime/restore.go: what a restart makes of the stored status.
use kairos_agent.Base.{String, Bool, true, ◌||◌, Option, none, some, str_eq, append, if◌then◌else◌}
use kairos_agent.Base.Int.{ℤ, pos, eqb_ℤ}
use kairos_agent.Entity.Agent.{
  RunMode, run_mode_idle, run_mode_scanning, run_mode_paper_trading, run_mode_backtesting,
  run_mode_optimizing, run_mode_live_trading, run_mode_halted, connectivity_connected, license_demo,
  integrity_trusted,
}
use kairos_agent.Runtime.StateMachine.{restore_mode}
use kairos_agent.Runtime.Manager.{Status, Manager, halted_banner}

-- `IsZero` of a time.
abbrev pub is_zero_time : ℤ → Bool
is_zero_time t = eqb_ℤ t (pos 0)

abbrev pub fallback_time : ℤ → ℤ → ℤ
fallback_time value fallback = if is_zero_time value then fallback else value

abbrev halted_time : Option ℤ → ℤ → ℤ
halted_time none fallback = fallback
halted_time (some t) fallback = fallback_time t fallback

abbrev pub is_working : RunMode → Bool
is_working mode =
    str_eq mode run_mode_live_trading
    || str_eq mode run_mode_paper_trading
    || str_eq mode run_mode_scanning
    || str_eq mode run_mode_backtesting
    || str_eq mode run_mode_optimizing

-- The `switch` on the mode of the snapshot.
restore_by_mode : ℤ → Status → Status
restore_by_mode now s =
    if str_eq s.mode run_mode_halted
    then (let reason =
          if str_eq s.halt_reason "" then "restored halted runtime snapshot" else s.halt_reason in
        record s {
          halt_reason = reason;
          halted_at_utc =
              some (halted_time s.halted_at_utc (fallback_time s.last_updated_at_utc now));
          new_entries_blocked = true;
          banner = halted_banner reason;
        })
    else if is_working s.mode
    then (let reason = append "unclean restart from " s.mode in
        record s {
          mode = run_mode_halted;
          halt_reason = reason;
          halted_at_utc = some now;
          new_entries_blocked = true;
          banner = halted_banner reason;
          last_updated_at_utc = now;
        })
    else record s {
      mode = run_mode_idle;
      halt_reason = "";
      halted_at_utc = none;
      banner = "";
      last_updated_at_utc = fallback_time s.last_updated_at_utc now;
    }

abbrev or_default : String → String → String
or_default s d = if str_eq s "" then d else s

unfoldable pub restored_status : ℤ → Status → Status
unfolding restore_by_mode
restored_status now snapshot =
    let s = restore_by_mode now snapshot in
    record s {
      connectivity = or_default s.connectivity connectivity_connected;
      license = or_default s.license license_demo;
      integrity = or_default s.integrity integrity_trusted;
      last_updated_at_utc = fallback_time s.last_updated_at_utc now;
    }

-- `RestoreSafetySnapshot`, with its reading of the clock and that of `StateMachine.Restore`.
unfoldable pub restore_safety_snapshot : Status → ℤ → ℤ → Manager → Manager
unfolding restored_status restore_mode
restore_safety_snapshot snapshot now₀ now₁ m =
    let s = restored_status now₀ snapshot in
    record m {
      status = s;
      state_machine = restore_mode s.mode s.last_updated_at_utc now₁ m.state_machine;
    }
