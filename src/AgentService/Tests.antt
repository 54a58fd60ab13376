-- ===== src/AgentService/Tests.antt =====
-- The operator's commands at concrete inputs.
use kairos_agent.Base.{String, ◌≡◌, refl, ◌⊎◌, inl, true, false, Option, none, some, [], ◌∷◌}
use kairos_agent.Base.Int.{pos}
use kairos_agent.Entity.Agent.{
  run_mode_idle, connectivity_connected, license_demo, license_risk_only, RuntimeStatus,
}
use kairos_agent.Entity.AgentConfig.{AgentConfig}
use kairos_agent.AgentService.{
  disclaimer_required, not_listed, unsupported_schema, Clock, start_live, trust_plugin_key,
  set_config,
}
use kairos_agent.Runtime.Manager.{Manager, new_manager, set_license}

abbrev config : AgentConfig
config = record {
  schema_version = pos 1;
  export_timezone = "UTC";
  trusted_plugin_fingerprints = "aa" ∷ "bb" ∷ [];
  telemetry = record {
    enabled = true;
    profile = "minimal";
    consent_version = "1";
    consent_source = "cli";
    consented_at_utc = pos 1;
    install_id = "i";
  };
  journal_max_size_bytes = pos 100;
  memory_limit_bytes = pos 0;
  memory_degrade_threshold_pct = pos 80;
  paths = record {
    config_path = "c";
    trades_db = "t";
    vault_db = "v";
    journal_path = "j";
    audit_path = "a";
  };
  risk_max_position = "1";
  api_key_id = "";
  default_symbol = "BTCUSDT";
  edition = "pro";
  license_expiry = pos 1;
  grace_started_at = some (pos 0);
}

abbrev clock : Clock
clock = record { transition_at = pos 3; updated_at = pos 4 }

abbrev saves : Manager → Option String
saves _ = none

abbrev fails : Manager → Option String
fails _ = some "disk full"

-- A manager whose license has run out.
abbrev lapsed : Manager
lapsed = set_license license_risk_only (pos 2) (new_manager "1" (pos 0) (pos 1))

no_disclaimer : (start_live saves (inl false) (pos 2) clock lapsed).1 ≡ some disclaimer_required
unfolding start_live
no_disclaimer = refl

abbrev status : RuntimeStatus
status = record {
  mode = run_mode_idle;
  connectivity = connectivity_connected;
  license = license_demo;
  integrity = "trusted";
  ntp_drift = pos 0;
  new_entries_blocked = false;
  halt_reason = "";
  halted_at_utc = none;
  banner = "";
  analytics_degraded = false;
  last_updated_at_utc = pos 1;
}

abbrev listed_key : String
listed_key = "aa"

abbrev read : AgentConfig ⊎ String
read = inl config

refuses_unlisted : (trust_plugin_key (inl config) "cc" none).1 ≡ some (not_listed "cc")
unfolding trust_plugin_key
refuses_unlisted = refl

refuses_schema :
    set_config (record config { schema_version = pos 2 }) none
    ≡ ([], some (unsupported_schema (pos 2)))
unfolding set_config
refuses_schema = refl
