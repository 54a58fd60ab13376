-- ===== src/License/Entitlement.antt =====
-- internal/entitlement: editions, their features and limits, and what a license entitles to.
use kairos_agent.Base.{
  member, String, Bool, false, ◌||◌, Option, none, some, List, [], ◌∷◌, str_eq, if◌then◌else◌,
}
use kairos_agent.Base.Int.{ℤ, pos, negsuc, ◌+ℤ◌, ltb_ℤ, eqb_ℤ}
use kairos_agent.Base.Dict.{Dict, lookup}
use kairos_agent.Entity.Agent.{license_grace, license_risk_only}
use kairos_agent.License.{State, Claims, unix_time, grace_period, evaluate_state}

abbrev pub Edition : Type 0
Edition = String

abbrev pub edition_community : Edition
edition_community = "community"

abbrev pub edition_pro : Edition
edition_pro = "pro"

abbrev pub edition_team : Edition
edition_team = "team"

abbrev pub edition_enterprise : Edition
edition_enterprise = "enterprise"

abbrev pub Feature : Type 0
Feature = String

abbrev pub feature_webhook_alerts : Feature
feature_webhook_alerts = "webhook_alerts"

abbrev pub feature_cloud_sync : Feature
feature_cloud_sync = "cloud_sync"

abbrev pub feature_strategy_share : Feature
feature_strategy_share = "strategy_share"

abbrev pub feature_priority_support : Feature
feature_priority_support = "priority_support"

abbrev pub feature_audit_log : Feature
feature_audit_log = "audit_log"

abbrev pub feature_sso : Feature
feature_sso = "sso"

abbrev pub feature_custom_plugins : Feature
feature_custom_plugins = "custom_plugins"

pub record Policy : Type 0 where
  pub policy_edition : Edition
  pub policy_exchanges : ℤ
  pub policy_strategies : ℤ
  pub policy_connectors : ℤ
  pub allowed_features : List Feature

pub record Limits : Type 0 where
  pub max_exchanges : ℤ
  pub max_strategies : ℤ
  pub max_connectors : ℤ

pub record Entitlement : Type 0 where
  pub edition : Edition
  pub state : String
  pub expires_at : ℤ
  pub grace_until : ℤ
  pub features : List Feature
  pub limits : Limits

abbrev community_policy : Policy
community_policy = record {
  policy_edition = edition_community;
  policy_exchanges = pos 1;
  policy_strategies = pos 5;
  policy_connectors = pos 2;
  allowed_features = [];
}

abbrev pro_policy : Policy
pro_policy = record {
  policy_edition = edition_pro;
  policy_exchanges = pos 3;
  policy_strategies = pos 50;
  policy_connectors = pos 10;
  allowed_features = feature_webhook_alerts ∷ feature_cloud_sync ∷ [];
}

abbrev team_policy : Policy
team_policy = record {
  policy_edition = edition_team;
  policy_exchanges = pos 10;
  policy_strategies = pos 500;
  policy_connectors = pos 50;
  allowed_features =
      feature_webhook_alerts ∷ feature_cloud_sync ∷ feature_strategy_share
      ∷ feature_priority_support ∷ feature_audit_log ∷ [];
}

abbrev enterprise_policy : Policy
enterprise_policy = record {
  policy_edition = edition_enterprise;
  policy_exchanges = negsuc 0;
  policy_strategies = negsuc 0;
  policy_connectors = negsuc 0;
  allowed_features =
      feature_webhook_alerts ∷ feature_cloud_sync ∷ feature_strategy_share
      ∷ feature_priority_support ∷ feature_audit_log ∷ feature_sso ∷ feature_custom_plugins ∷ [];
}

abbrev pub policies : Dict Policy
policies =
    (edition_community, community_policy)
    ∷ (edition_pro, pro_policy)
    ∷ (edition_team, team_policy)
    ∷ (edition_enterprise, enterprise_policy)
    ∷ []

abbrev or_community : Option Policy → Policy
or_community none = community_policy
or_community (some p) = p

unfoldable pub policy_of : Edition → Policy
policy_of edition = or_community (lookup edition policies)

abbrev pub has_feature : Policy → Feature → Bool
has_feature p feature = member feature p.allowed_features

-- The limit that a kind names; `none` for a kind that is not known.
abbrev limit_of : Policy → String → Option ℤ
limit_of p kind =
    if str_eq kind "exchanges"
    then some p.policy_exchanges
    else if str_eq kind "strategies"
    then some p.policy_strategies
    else if str_eq kind "connectors"
    then some p.policy_connectors
    else none

abbrev is_unlimited : Option ℤ → Bool
is_unlimited none = false
is_unlimited (some limit) = eqb_ℤ limit (negsuc 0)

unfoldable pub unlimited : Policy → String → Bool
unlimited p kind = is_unlimited (limit_of p kind)

unfoldable pub parse_edition : String → Edition
parse_edition sub =
    if str_eq sub "pro"
    then edition_pro
    else if str_eq sub "team"
    then edition_team
    else if str_eq sub "enterprise"
    then edition_enterprise
    else edition_community

abbrev pub grace_end : State → Option ℤ → ℤ
grace_end state none = pos 0
grace_end state (some started) =
    if str_eq state license_grace then started +ℤ grace_period else pos 0

-- `Evaluate`, at the time `now`.
unfoldable pub evaluate : ℤ → Claims → Option ℤ → Entitlement
evaluate now claims grace_started =
    let state = evaluate_state now claims grace_started in
    let edition =
      if str_eq claims.subject "" then edition_community else parse_edition claims.subject in
    let policy = policy_of edition in
    record {
      edition = edition;
      state = state;
      expires_at = if ltb_ℤ (pos 0) claims.expiry then unix_time claims.expiry else pos 0;
      grace_until = grace_end state grace_started;
      features = policy.allowed_features;
      limits = record {
        max_exchanges = policy.policy_exchanges;
        max_strategies = policy.policy_strategies;
        max_connectors = policy.policy_connectors;
      };
    }

unfoldable pub can_use_feature : Entitlement → Feature → Bool
can_use_feature ent feature =
    if str_eq ent.state license_risk_only
    then false
    else has_feature (policy_of ent.edition) feature

unfoldable pub within_limits : Entitlement → String → ℤ → Bool
within_limits ent kind current =
    let policy = policy_of ent.edition in
    if str_eq kind "exchanges"
    then unlimited policy "exchanges" || ltb_ℤ current policy.policy_exchanges
    else if str_eq kind "strategies"
    then unlimited policy "strategies" || ltb_ℤ current policy.policy_strategies
    else if str_eq kind "connectors"
    then unlimited policy "connectors" || ltb_ℤ current policy.policy_connectors
    else false
