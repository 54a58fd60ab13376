-- ===== src/AgentService.antt =====
-- internal/service/agent/service.go: the operator's commands, over the runtime repository of
-- internal/providers/runtime/repository.go. The other repositories are interfaces: what a call of
-- theirs answers is an argument.
pub mod Live
pub mod Consent
mod Tests
use kairos_agent.Base.{
  member, String, ◌⊎◌, inl, inr, Bool, not, ◌&&◌, Option, none, some, List, [], ◌∷◌, str_eq,
  if◌then◌else◌,
}
use kairos_agent.Base.Int.{ℤ, pos, eqb_ℤ}
use kairos_agent.Entity.Agent.{
  RunMode, run_mode_idle, run_mode_scanning, run_mode_paper_trading, run_mode_backtesting,
  run_mode_live_trading, run_mode_halted, ConnectivityState, connectivity_network_wait,
  LicenseState, license_demo, license_licensed, RuntimeStatus,
}
use kairos_agent.Entity.AgentConfig.{telemetry_off, TelemetryConsent, AgentConfig}
use kairos_agent.Runtime.Manager.{Manager, Error, manager_transition, set_connectivity, set_license}
use kairos_agent.License.{Claims}
use kairos_agent.License.Entitlement.{Feature, Limits, evaluate, can_use_feature}

pub data ServiceError : Type 0 where
  disclaimer_unavailable : String → ServiceError
  disclaimer_required : ServiceError
  runtime_refused : Error → ServiceError
  not_persisted : String → ServiceError
  config_unavailable : String → ServiceError
  status_unavailable : String → ServiceError
  not_listed : String → ServiceError
  not_stored : String → ServiceError
  unsupported_schema : ℤ → ServiceError

-- The times that the two calls of a transition read.
pub record Clock : Type 0 where
  pub transition_at : ℤ
  pub updated_at : ℤ

pub record CheckOutput : Type 0 where
  pub output_schema_version : ℤ
  pub output_telemetry : TelemetryConsent
  pub allowed_outbound : List String
  pub output_status : RuntimeStatus

pub record EntitlementOutput : Type 0 where
  pub output_edition : String
  pub output_state : String
  pub output_limits : Limits
  pub output_features : List String

-- `persist` answers for `Repository.persist`, which saves the status that the manager then has.
module _ (persist : Manager → Option String) where
  abbrev pub persisted : Option String → Option ServiceError
  persisted none = none
  persisted (some e) = some (not_persisted e)

  abbrev pub after_transition : Manager × Option Error → Manager × Option ServiceError
  after_transition (m, some e) = (m, some (runtime_refused e))
  after_transition (m, none) = (m, persisted (persist m))

  -- `Repository.Transition`, `SetLicense` and `SetConnectivity`
  unfoldable pub repository_transition :
      RunMode → String → Clock → Manager → Manager × Option ServiceError
  repository_transition to reason clock m =
      after_transition (manager_transition to reason clock.transition_at clock.updated_at m)

  unfoldable pub repository_set_license : LicenseState → ℤ → Manager → Manager × Option ServiceError
  repository_set_license state now m =
      let next = set_license state now m in (next, persisted (persist next))

  unfoldable pub repository_set_connectivity :
      ConnectivityState → ℤ → Manager → Manager × Option ServiceError
  repository_set_connectivity state now m =
      let next = set_connectivity state now m in (next, persisted (persist next))

  unfoldable pub start_scan : Clock → Manager → Manager × Option ServiceError
  start_scan = repository_transition run_mode_scanning "scanning requested"

  unfoldable pub start_paper : Clock → Manager → Manager × Option ServiceError
  start_paper = repository_transition run_mode_paper_trading "paper trading requested"

  unfoldable pub queue_backtest : Clock → Manager → Manager × Option ServiceError
  queue_backtest = repository_transition run_mode_backtesting "backtest requested"

  unfoldable pub stop_all : Clock → Manager → Manager × Option ServiceError
  stop_all = repository_transition run_mode_idle "stop all requested"

  -- `StartLive`: `accepted` is the answer of the disclaimer repository, `license_at` the time that
  -- `SetLicense` reads.
  abbrev pub after_license : Clock → Manager × Option ServiceError → Manager × Option ServiceError
  after_license clock (m, some e) = (m, some e)
  after_license clock (m, none) =
      repository_transition run_mode_live_trading "live trading requested" clock m

  unfoldable pub start_live : Bool ⊎ String → ℤ → Clock → Manager → Manager × Option ServiceError
  start_live (inr e) license_at clock m = (m, some (disclaimer_unavailable e))
  start_live (inl accepted) license_at clock m =
      if not accepted
      then (m, some disclaimer_required)
      else after_license clock (repository_set_license license_licensed license_at m)

  abbrev pub after_halt : ℤ → Manager × Option ServiceError → Manager × Option ServiceError
  after_halt now (m, some e) = (m, some e)
  after_halt now (m, none) = repository_set_connectivity connectivity_network_wait now m

  unfoldable pub emergency_stop : Clock → ℤ → Manager → Manager × Option ServiceError
  emergency_stop clock now m =
      after_halt now (repository_transition run_mode_halted "emergency stop" clock m)

-- `Check`, from the answers of the configuration and of the runtime.
abbrev pub outbound_of : AgentConfig → RuntimeStatus → List String
outbound_of config status =
    let cloud =
      if config.telemetry.enabled && not (str_eq config.telemetry.profile telemetry_off)
      then "cloud-license" ∷ "cloud-telemetry" ∷ []
      else "cloud-license" ∷ [] in
    "exchange-public"
    ∷ "exchange-private"
    ∷ (if not (str_eq status.license license_demo) then cloud else [])

unfoldable pub check : AgentConfig ⊎ String → RuntimeStatus ⊎ String → CheckOutput ⊎ ServiceError
check (inr e) _ = inr (config_unavailable e)
check (inl config) (inr e) = inr (status_unavailable e)
check (inl config) (inl status) = inl (record {
  output_schema_version = config.schema_version;
  output_telemetry = config.telemetry;
  allowed_outbound = outbound_of config status;
  output_status = status;
})

abbrev pub claims_of : AgentConfig → Claims
claims_of config = record { subject = config.edition; hwid = ""; expiry = config.license_expiry }

-- `Entitlement` and `CanUseFeature`, at the time `now`.
unfoldable pub entitlement : ℤ → AgentConfig ⊎ String → EntitlementOutput ⊎ ServiceError
entitlement now (inr e) = inr (config_unavailable e)
entitlement now (inl config) =
    let ent = evaluate now (claims_of config) config.grace_started_at in
    inl (record {
      output_edition = ent.edition;
      output_state = ent.state;
      output_limits = ent.limits;
      output_features = ent.features;
    })

unfoldable pub service_can_use_feature : ℤ → Feature → AgentConfig ⊎ String → Bool ⊎ ServiceError
service_can_use_feature now feature (inr e) = inr (config_unavailable e)
service_can_use_feature now feature (inl config) =
    inl (can_use_feature (evaluate now (claims_of config) config.grace_started_at) feature)

-- `TrustPluginKey`: the fingerprints that the plugin repository is asked to trust, and the answer.
abbrev stored : Option String → Option ServiceError
stored none = none
stored (some e) = some (not_stored e)

unfoldable pub trust_plugin_key :
    AgentConfig ⊎ String → String → Option String → List String × Option ServiceError
trust_plugin_key (inr e) fingerprint answer = ([], some (config_unavailable e))
trust_plugin_key (inl config) fingerprint answer =
    if not (member fingerprint config.trusted_plugin_fingerprints)
    then ([], some (not_listed fingerprint))
    else (fingerprint ∷ [], stored answer)

-- `SetConfig`: the configurations that the repository is asked to store, and the answer.
unfoldable pub set_config : AgentConfig → Option String → List AgentConfig × Option ServiceError
set_config config answer =
    if not (eqb_ℤ config.schema_version (pos 1))
    then ([], some (unsupported_schema config.schema_version))
    else (config ∷ [], stored answer)
