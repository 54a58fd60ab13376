-- ===== src/TradingGate.antt =====
-- internal/service/tradinggate/gate.go: the check of the runtime status before a new trade entry.
pub mod Allows
mod Tests
use kairos_agent.Base.{
  String, Bool, true, false, not, ◌&&◌, ◌||◌, Option, none, some, List, [], ◌∷◌, str_eq,
  if◌then◌else◌, is_some,
}
use kairos_agent.Base.Int.{ℤ, pos, ltb_ℤ}
use kairos_agent.Entity.Agent.{
  RunMode, run_mode_paper_trading, run_mode_live_trading, connectivity_connected, LicenseState,
  license_licensed, license_grace, integrity_trusted, RuntimeStatus,
}

pub record Policy : Type 0 where
  pub allowed_modes : Option (List RunMode)  -- a nil map, or the keys of the set
  pub max_ntp_drift : ℤ
  pub require_connected : Bool
  pub require_trusted : Bool
  pub require_live_license : Bool

unfoldable pub default_policy : Policy
default_policy = record {
  allowed_modes = some (run_mode_live_trading ∷ run_mode_paper_trading ∷ []);
  max_ntp_drift = pos 500_000_000;
  require_connected = true;
  require_trusted = true;
  require_live_license = true;
}

pub data RuntimeRead : Type 0 where
  status : RuntimeStatus → RuntimeRead
  read_error : String → RuntimeRead

-- `runtime` is nil, or what its `Status` returns.
pub record Gate : Type 0 where
  pub runtime : Option RuntimeRead
  pub policy : Policy

unfoldable pub new_gate : Option RuntimeRead → Policy → Gate
unfolding default_policy
new_gate runtime policy = record {
  runtime = runtime;
  policy = if is_some policy.allowed_modes then policy else default_policy;
}

pub data Reason : Type 0 where
  mode_not_allowed entries_blocked not_connected not_trusted drift_exceeded license_invalid : Reason

-- The messages of `BlockError`.
unfoldable pub reason_text : Reason → String
reason_text mode_not_allowed = "runtime mode does not allow new entries"
reason_text entries_blocked = "runtime explicitly blocked new entries"
reason_text not_connected = "exchange connectivity is not healthy"
reason_text not_trusted = "runtime integrity is degraded"
reason_text drift_exceeded = "NTP drift exceeds allowed threshold"
reason_text license_invalid = "live trading license is not valid for new entries"

pub data GateError : Type 0 where
  status_unavailable : String → GateError
  blocked : Reason → RuntimeStatus → GateError

mem_mode : RunMode → List RunMode → Bool
mem_mode m [] = false
mem_mode m (x ∷ xs) = str_eq x m || mem_mode m xs

abbrev modes : Option (List RunMode) → List RunMode
modes none = []
modes (some l) = l

unfoldable pub is_live_license_allowed : LicenseState → Bool
is_live_license_allowed s = str_eq s license_licensed || str_eq s license_grace

check_status : Policy → RuntimeStatus → Option GateError
unfolding mem_mode is_live_license_allowed
check_status p s =
    if not (mem_mode s.mode (modes p.allowed_modes))
    then some (blocked mode_not_allowed s)
    else if s.new_entries_blocked
    then some (blocked entries_blocked s)
    else if p.require_connected && not (str_eq s.connectivity connectivity_connected)
    then some (blocked not_connected s)
    else if p.require_trusted && not (str_eq s.integrity integrity_trusted)
    then some (blocked not_trusted s)
    else if ltb_ℤ (pos 0) p.max_ntp_drift && ltb_ℤ p.max_ntp_drift s.ntp_drift
    then some (blocked drift_exceeded s)
    else if p.require_live_license
        && str_eq s.mode run_mode_live_trading
        && not (is_live_license_allowed s.license)
    then some (blocked license_invalid s)
    else none

check_read : Policy → RuntimeRead → Option GateError
unfolding check_status
check_read p (read_error e) = some (status_unavailable e)
check_read p (status s) = check_status p s

-- `CheckNewEntry`, whose receiver may be nil.
unfoldable pub check_new_entry : Option Gate → Option GateError
unfolding check_read
check_new_entry none = none
check_new_entry (some g) = elim (g.runtime) [ none ↦ none | some r ↦ check_read g.policy r ]
