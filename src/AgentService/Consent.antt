-- ===== src/AgentService/Consent.antt =====
-- What the operator has to agree to: telemetry and plugins.
use kairos_agent.Base.{
  String, ◌≡◌, refl, ap, ◌∙◌, ◌⊎◌, inl, inr, true, not, ◌&&◌, Option, arith, str_eq, str_eq_iff,
}
use kairos_agent.Entity.Agent.{license_demo, RuntimeStatus}
use kairos_agent.Entity.AgentConfig.{telemetry_off, AgentConfig}
use kairos_agent.AgentService.{member, CheckOutput, outbound_of, check, trust_plugin_key}

-- The destinations that `Check` reports: telemetry goes to the cloud exactly when the operator enabled
-- it with a profile other than off and the license is not a demo, the license server is asked exactly
-- when the license is not a demo, and the exchange may always be reached.
check_outbound :
    (config : AgentConfig) (status : RuntimeStatus)
    → (output : CheckOutput) × (check (inl config) (inl status) ≡ inl output)
      × (member "cloud-telemetry" output.allowed_outbound ≡ (
          config.telemetry.enabled
          && not (str_eq config.telemetry.profile telemetry_off)
          && not (str_eq status.license license_demo)))
      × (member "cloud-license" output.allowed_outbound ≡ not (str_eq status.license license_demo))
      × (member "exchange-public" output.allowed_outbound ≡ true)
      × (member "exchange-private" output.allowed_outbound ≡ true)
unfolding check
check_outbound config status = (
  record {
    output_schema_version = config.schema_version;
    output_telemetry = config.telemetry;
    allowed_outbound = outbound_of config status;
    output_status = status;
  },
  refl,
  ground arith,
  ground arith,
  refl,
  refl,
)

-- `TrustPluginKey` stores no key but the one that it was given, and that only if the configuration
-- could be read and lists its fingerprint.
pub stores_only_listed :
    (config : AgentConfig ⊎ String) (fingerprint f : String) (answer : Option String)
    → member f (trust_plugin_key config fingerprint answer).0 ≡ true
    → (f ≡ fingerprint)
      × ((c : AgentConfig) × (config ≡ inl c) × (member f c.trusted_plugin_fingerprints ≡ true))
unfolding trust_plugin_key
stores_only_listed (inr e) fingerprint f answer h = ground arith
stores_only_listed (inl c) fingerprint f answer h =
    let same : f ≡ fingerprint = ground (arith, str_eq_iff fingerprint f) in
    let listed : member fingerprint c.trusted_plugin_fingerprints ≡ true = ground arith in
    (same, (c, refl, ap (λ k. member k c.trusted_plugin_fingerprints) same ∙ listed))
