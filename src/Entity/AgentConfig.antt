-- ===== src/Entity/AgentConfig.antt =====
-- internal/domain/entity/agent.go: the configuration of the agent and the consent to telemetry.
use kairos_agent.Base.{String, Bool, Option, List}
use kairos_agent.Base.Int.{ℤ}

abbrev TelemetryProfile : Type 0
TelemetryProfile = String

abbrev pub telemetry_off : TelemetryProfile
telemetry_off = "off"

pub record TelemetryConsent : Type 0 where
  pub enabled : Bool
  pub profile : TelemetryProfile
  pub consent_version : String
  pub consent_source : String
  pub consented_at_utc : ℤ
  pub install_id : String

pub record StatePaths : Type 0 where
  pub config_path : String
  pub trades_db : String
  pub vault_db : String
  pub journal_path : String
  pub audit_path : String

-- `Risk` and `Exchange` are given by their fields.
pub record AgentConfig : Type 0 where
  pub schema_version : ℤ
  pub export_timezone : String
  pub trusted_plugin_fingerprints : List String
  pub telemetry : TelemetryConsent
  pub journal_max_size_bytes : ℤ
  pub memory_limit_bytes : ℤ
  pub memory_degrade_threshold_pct : ℤ
  pub paths : StatePaths
  pub risk_max_position : String
  pub api_key_id : String
  pub default_symbol : String
  pub edition : String
  pub license_expiry : ℤ
  pub grace_started_at : Option ℤ
