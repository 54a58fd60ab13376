-- ===== src/TradingGate/Tests.antt =====
-- The trading gate on concrete inputs.
use kairos_agent.Base.{◌≡◌, refl, ◌↔◌, false, none, some}
use kairos_agent.Base.Int.{pos}
use kairos_agent.Entity.Agent.{
  run_mode_paper_trading, run_mode_live_trading, connectivity_connected, license_demo,
  integrity_trusted, RuntimeStatus,
}
use kairos_agent.TradingGate.{new_gate, license_invalid, reason_text, blocked, check_new_entry}
use kairos_agent.TradingGate.Allows.{IsSafe, production_check, production_check_iff}

abbrev paper_status : RuntimeStatus
paper_status = record {
  mode = run_mode_paper_trading;
  connectivity = connectivity_connected;
  license = license_demo;
  integrity = integrity_trusted;
  ntp_drift = pos 500_000_000;
  new_entries_blocked = false;
  halt_reason = "";
  halted_at_utc = none;
  banner = "";
  analytics_degraded = false;
  last_updated_at_utc = pos 1;
}

abbrev unlicensed_status : RuntimeStatus
unlicensed_status = record paper_status { mode = run_mode_live_trading }

paper_passes : production_check paper_status ≡ none
unfolding check_new_entry new_gate
paper_passes = refl

unlicensed_fails :
    production_check unlicensed_status ≡ some (blocked license_invalid unlicensed_status)
unfolding check_new_entry new_gate
unlicensed_fails = refl

license_message : reason_text license_invalid ≡ "live trading license is not valid for new entries"
unfolding reason_text
license_message = refl

production_check_iff_example :
    (production_check unlicensed_status ≡ none) ↔ IsSafe unlicensed_status
production_check_iff_example = production_check_iff unlicensed_status
