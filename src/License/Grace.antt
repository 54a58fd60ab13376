-- ===== src/License/Grace.antt =====
-- The end of the grace period: `EvaluateState` over time.
use kairos_agent.Base.{
  ◌≡◌, refl, Bool, true, false, not, ◌&&◌, Option, none, some, arith, str_eq_iff, ne_of_str_eq,
  if◌then◌else◌, Bool-cases,
}
use kairos_agent.Base.Int.{ℤ, pos, ◌+ℤ◌, ◌≤ℤ◌, ltb_ℤ, leb_ℤ, eqb_ℤ, +ℤ_parts, -ℤ_parts}
use kairos_agent.Entity.Agent.{license_licensed, license_grace, license_risk_only}
use kairos_agent.License.{Claims, unix_time, time_sub, grace_period, grace_state, evaluate_state}
use kairos_agent.License.Entitlement.{Feature, evaluate, can_use_feature}

-- 48 hours have passed since the start of the grace period, if it started.
abbrev pub is_over : ℤ → Option ℤ → Bool
is_over now none = false
is_over now (some started) = leb_ℤ (started +ℤ grace_period) now

time_sub_reaches :
    (now started : ℤ)
    → leb_ℤ grace_period (time_sub now started) ≡ leb_ℤ (started +ℤ grace_period) now
unfolding time_sub
time_sub_reaches now started = ground (arith, -ℤ_parts now started, +ℤ_parts started grace_period)

grace_state_lem :
    (now : ℤ) (started : Option ℤ)
    → grace_state now started ≡ (if is_over now started then license_risk_only else license_grace)
unfolding grace_state
grace_state_lem now none = refl
grace_state_lem now (some started) = ground (arith, time_sub_reaches now started)

-- The state of a license depends on two dates alone: it is licensed before the expiry, if the claims
-- have one; else it is risk only from 48 hours after the start of the grace period on, and in grace
-- before that or if the grace period has not started.
pub evaluate_state_lem :
    (now : ℤ) (claims : Claims) (started : Option ℤ)
    → evaluate_state now claims started ≡ (
        if not (eqb_ℤ claims.expiry (pos 0)) && ltb_ℤ now (unix_time claims.expiry)
        then license_licensed
        else if is_over now started
        then license_risk_only
        else license_grace)
unfolding evaluate_state
evaluate_state_lem now claims started = ground (arith, grace_state_lem now started)

is_over_later :
    (now later : ℤ) (started : Option ℤ)
    → now ≤ℤ later
    → is_over now started ≡ true
    → is_over later started ≡ true
is_over_later now later none h over = ground arith
is_over_later now later (some started) h over = ground arith

risk_only_conditions :
    (now : ℤ) (claims : Claims) (started : Option ℤ)
    → evaluate_state now claims started ≡ license_risk_only
    → (is_over now started ≡ true)
      × ((not (eqb_ℤ claims.expiry (pos 0)) && ltb_ℤ now (unix_time claims.expiry)) ≡ false)
risk_only_conditions now claims started h = ground (
  arith,
  evaluate_state_lem now claims started,
  ne_of_str_eq license_licensed license_risk_only refl,
  ne_of_str_eq license_grace license_risk_only refl,
  Bool-cases (is_over now started),
  Bool-cases (not (eqb_ℤ claims.expiry (pos 0)) && ltb_ℤ now (unix_time claims.expiry)),
)

-- A license that is risk only stays so as time goes on, as long as its claims and the start of the
-- grace period stay, and then no feature can be used any more.
risk_only_stays :
    (now later : ℤ) (claims : Claims) (started : Option ℤ) (feature : Feature)
    → now ≤ℤ later
    → evaluate_state now claims started ≡ license_risk_only
    → (evaluate_state later claims started ≡ license_risk_only)
      × (can_use_feature (evaluate later claims started) feature ≡ false)
unfolding evaluate can_use_feature
risk_only_stays now later claims started feature h risk =
    let before = risk_only_conditions now claims started risk in
    let state : evaluate_state later claims started ≡ license_risk_only = ground (
      arith,
      evaluate_state_lem later claims started,
      is_over_later now later started h before.0,
      before.1,
    ) in
    (
      state,
      ground (arith, state, str_eq_iff (evaluate_state later claims started) license_risk_only),
    )
