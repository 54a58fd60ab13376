-- ===== src/License/Agreement.antt =====
-- What an entitlement lists and what it permits agree, and the limits hold for whoever asks first.
use kairos_agent.Base.{
  member, ℕ, zero, suc, ◌+◌, ◌≤◌, String, ◌≡◌, Bool, true, false, not, ◌&&◌, ◌||◌, Option, none,
  some, arith, str_eq, str_eq_iff, if◌then◌else◌,
}
use kairos_agent.Base.Int.{ℤ, pos, negsuc, ltb_ℤ, eqb_ℤ}
use kairos_agent.Entity.Agent.{license_risk_only}
use kairos_agent.License.{Claims}
use kairos_agent.License.Entitlement.{
  Feature, Entitlement, unlimited, evaluate, can_use_feature, within_limits,
}

-- The limit that an entitlement lists for a kind.
abbrev pub listed_limit : Entitlement → String → Option ℤ
listed_limit ent kind =
    if str_eq kind "exchanges"
    then some ent.limits.max_exchanges
    else if str_eq kind "strategies"
    then some ent.limits.max_strategies
    else if str_eq kind "connectors"
    then some ent.limits.max_connectors
    else none

-- -1 means no limit.
abbrev pub permits : Option ℤ → ℤ → Bool
permits none current = false
permits (some limit) current = eqb_ℤ limit (negsuc 0) || ltb_ℤ current limit

-- Whatever the claims are, `CanUseFeature` accepts exactly the features that the evaluated
-- entitlement lists, unless the license is risk only, and `WithinLimits` accepts a count exactly when
-- it is below the limit that the entitlement lists for the kind, or that limit is -1.
evaluate_agrees :
    (now : ℤ) (claims : Claims) (started : Option ℤ) (feature : Feature) (kind : String)
    (current : ℤ)
    → let ent = evaluate now claims started in
      (can_use_feature ent feature
        ≡ (not (str_eq ent.state license_risk_only) && member feature ent.features))
      × (within_limits ent kind current ≡ permits (listed_limit ent kind) current)
unfolding evaluate can_use_feature within_limits unlimited
evaluate_agrees now claims started feature kind current =
    let ent = evaluate now claims started in
    (
      ground arith,
      ground (
        arith,
        str_eq_iff kind "exchanges",
        str_eq_iff kind "strategies",
        str_eq_iff kind "connectors",
      ),
    )

-- Additions that ask `WithinLimits` with the number of what is there, one after another.
unfoldable pub add_guarded : Entitlement → String → ℕ → ℕ → ℕ
add_guarded ent kind zero count = count
add_guarded ent kind (suc tries) count =
    let added = add_guarded ent kind tries (count + 1) in
    let kept = add_guarded ent kind tries count in
    if within_limits ent kind (pos count) then added else kept

within_below :
    (ent : Entitlement) (kind : String) (count : ℕ) (limit : ℕ)
    → listed_limit ent kind ≡ some (pos limit)
    → within_limits ent kind (pos count) ≡ permits (listed_limit ent kind) (pos count)
    → within_limits ent kind (pos count) ≡ true
    → count + 1 ≤ limit
within_below ent kind count limit listed agrees within = ground arith

-- If every addition asks `WithinLimits` first, the count never exceeds a limit that the evaluated
-- entitlement lists and that is not negative, however many additions are tried.
pub additions_within_limit :
    (now : ℤ) (claims : Claims) (started : Option ℤ) (kind : String) (limit tries count : ℕ)
    → listed_limit (evaluate now claims started) kind ≡ some (pos limit)
    → count ≤ limit
    → add_guarded (evaluate now claims started) kind tries count ≤ limit
unfolding add_guarded
additions_within_limit now claims started kind limit zero count listed below = below
additions_within_limit now claims started kind limit (suc tries) count listed below =
    let ent = evaluate now claims started in
    ground (
      arith,
      within_below ent kind count limit listed
          (evaluate_agrees now claims started "" kind (pos count)).1,
      additions_within_limit now claims started kind limit tries (count + 1) listed,
      additions_within_limit now claims started kind limit tries count listed below,
    )
