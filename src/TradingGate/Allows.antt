-- ===== src/TradingGate/Allows.antt =====
-- What an allowed entry means.
use kairos_agent.Base.{
  ◌≡◌, ◌↔◌, ◌⊎◌, false, Option, none, some, arith, str_eq_iff, ne_of_str_eq, refl,
}
use kairos_agent.Base.Int.{pos, ◌≤ℤ◌}
use kairos_agent.Entity.Agent.{
  run_mode_paper_trading, run_mode_live_trading, connectivity_connected, license_licensed,
  license_grace, integrity_trusted, RuntimeStatus,
}
use kairos_agent.TradingGate.{default_policy, status, new_gate, GateError, check_new_entry}

-- A status that is safe for new entries under the production policy.
pub record IsSafe (s : RuntimeStatus) : Type 0 where
  pub trading : (s.mode ≡ run_mode_live_trading) ⊎ (s.mode ≡ run_mode_paper_trading)
  pub unblocked : s.new_entries_blocked ≡ false
  pub connected : s.connectivity ≡ connectivity_connected
  pub trusted : s.integrity ≡ integrity_trusted
  pub in_sync : s.ntp_drift ≤ℤ pos 500_000_000
  pub licensed :
      (s.mode ≡ run_mode_paper_trading)
      ⊎ ((s.license ≡ license_licensed) ⊎ (s.license ≡ license_grace))

abbrev pub production_check : RuntimeStatus → Option GateError
production_check s = check_new_entry (some (new_gate (some (status s)) default_policy))

-- The production gate lets an entry pass exactly when the mode is live or paper trading, nothing
-- blocked new entries, the exchange is connected, the integrity is trusted, the drift is at most
-- 500 ms, and in live trading the license is valid or in its grace period.
pub production_check_iff : (s : RuntimeStatus) → (production_check s ≡ none) ↔ IsSafe s
unfolding check_new_entry new_gate
production_check_iff s = ground (
  arith,
  str_eq_iff run_mode_live_trading s.mode,
  str_eq_iff s.mode run_mode_live_trading,
  str_eq_iff run_mode_paper_trading s.mode,
  str_eq_iff s.connectivity connectivity_connected,
  str_eq_iff s.integrity integrity_trusted,
  str_eq_iff s.license license_licensed,
  str_eq_iff s.license license_grace,
  ne_of_str_eq run_mode_live_trading run_mode_paper_trading refl,
)
