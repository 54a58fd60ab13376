-- ===== src/Entity/Agent.antt =====
-- internal/domain/entity/agent.go: run modes, the other runtime states, and the domain's view of
-- the runtime status. Go declares each of these as a named string with constants, so any string is
-- a value of it.
use kairos_agent.Base.{ne_of_str_eq, ◌≢◌, String, refl, ◌≢◌, Bool, Option, str_eq, if◌then◌else◌}
use kairos_agent.Base.Int.{ℤ}

abbrev pub RunMode : Type 0
RunMode = String

abbrev pub run_mode_idle : RunMode
run_mode_idle = "idle"

abbrev pub run_mode_scanning : RunMode
run_mode_scanning = "scanning"

abbrev pub run_mode_paper_trading : RunMode
run_mode_paper_trading = "paper_trading"

abbrev pub run_mode_backtesting : RunMode
run_mode_backtesting = "backtesting"

abbrev pub run_mode_optimizing : RunMode
run_mode_optimizing = "optimizing"

abbrev pub run_mode_live_trading : RunMode
run_mode_live_trading = "live_trading"

abbrev pub run_mode_halted : RunMode
run_mode_halted = "halted"

-- `RunMode.Display`
unfoldable pub display : RunMode → String
display m =
    if str_eq m run_mode_idle
    then "Idle"
    else if str_eq m run_mode_scanning
    then "Scanning"
    else if str_eq m run_mode_paper_trading
    then "Paper Trading"
    else if str_eq m run_mode_backtesting
    then "Backtesting"
    else if str_eq m run_mode_optimizing
    then "Optimizing"
    else if str_eq m run_mode_live_trading
    then "Live Trading"
    else if str_eq m run_mode_halted
    then "Halted"
    else m

abbrev pub ConnectivityState : Type 0
ConnectivityState = String

abbrev pub connectivity_connected : ConnectivityState
connectivity_connected = "connected"

abbrev pub connectivity_network_wait : ConnectivityState
connectivity_network_wait = "network_waiting"

abbrev pub LicenseState : Type 0
LicenseState = String

abbrev pub license_demo : LicenseState
license_demo = "demo"

abbrev pub license_licensed : LicenseState
license_licensed = "licensed"

abbrev pub license_grace : LicenseState
license_grace = "grace"

abbrev pub license_risk_only : LicenseState
license_risk_only = "risk_only"

abbrev pub IntegrityState : Type 0
IntegrityState = String

abbrev pub integrity_trusted : IntegrityState
integrity_trusted = "trusted"

abbrev pub integrity_degraded : IntegrityState
integrity_degraded = "degraded"

pub record RuntimeStatus : Type 0 where
  pub mode : RunMode
  pub connectivity : ConnectivityState
  pub license : LicenseState
  pub integrity : IntegrityState
  pub ntp_drift : ℤ
  pub new_entries_blocked : Bool
  pub halt_reason : String
  pub halted_at_utc : Option ℤ
  pub banner : String
  pub analytics_degraded : Bool
  pub last_updated_at_utc : ℤ

-- The modes that are not trading.
abbrev pub IsRestingMode : RunMode → Type 0
IsRestingMode m = (m ≢ run_mode_live_trading) × (m ≢ run_mode_paper_trading)

pub halted-IsRestingMode : IsRestingMode run_mode_halted
halted-IsRestingMode = (
  ne_of_str_eq run_mode_halted run_mode_live_trading refl,
  ne_of_str_eq run_mode_halted run_mode_paper_trading refl,
)

pub idle-IsRestingMode : IsRestingMode run_mode_idle
idle-IsRestingMode = (
  ne_of_str_eq run_mode_idle run_mode_live_trading refl,
  ne_of_str_eq run_mode_idle run_mode_paper_trading refl,
)
