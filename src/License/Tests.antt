-- ===== src/License/Tests.antt =====
-- Licenses, tokens and entitlements at concrete inputs.
use kairos_agent.Base.{◌≤◌, String, ◌≡◌, refl, ◌↔◌, inl, inr, true, ◌&&◌, none, some, arith, str_eq}
use kairos_agent.Base.Int.{ℤ, pos, ◌+ℤ◌, ◌-ℤ◌, ◌*ℤ◌}
use kairos_agent.Base.Dict.{lookup}
use kairos_agent.Entity.Agent.{license_licensed, license_grace, license_risk_only}
use kairos_agent.License.{
  Claims, malformed_token, invalid_signature, Codec, split, verify_jwt, unix_time, time_sub,
  grace_state, evaluate_state,
}
use kairos_agent.License.Entitlement.{
  feature_strategy_share, policy_of, parse_edition, evaluate, can_use_feature,
}
use kairos_agent.License.Agreement.{add_guarded, additions_within_limit}
use kairos_agent.License.Tokens.{has_dot, IsSigned, verify_jwt_iff}

-- The license of a team, which expires one second after the epoch of Unix.
abbrev team : Claims
team = record { subject = "team"; hwid = "h"; expiry = pos 1 }

abbrev start : ℤ
start = pos 62_135_596_800_000_000_000

abbrev after_grace : ℤ
after_grace = pos 62_135_769_600_000_000_000

licensed_before : evaluate_state start team none ≡ license_licensed
unfolding evaluate_state grace_state unix_time ◌+ℤ◌ ◌*ℤ◌
licensed_before = refl

grace_later : evaluate_state (start +ℤ pos 1_000_000_000) team (some start) ≡ license_grace
unfolding evaluate_state grace_state unix_time time_sub ◌+ℤ◌ ◌*ℤ◌ ◌-ℤ◌
grace_later = refl

over : evaluate_state after_grace team (some start) ≡ license_risk_only
unfolding evaluate_state grace_state unix_time time_sub ◌+ℤ◌ ◌*ℤ◌ ◌-ℤ◌
over = refl

shares : can_use_feature (evaluate start team none) feature_strategy_share ≡ true
unfolding evaluate evaluate_state unix_time can_use_feature parse_edition policy_of lookup ◌+ℤ◌ ◌*ℤ◌
shares = refl

additions_within_limit_example : add_guarded (evaluate start team none) "exchanges" 7 8 ≤ 10
unfolding evaluate evaluate_state unix_time parse_edition policy_of lookup ◌+ℤ◌ ◌*ℤ◌
additions_within_limit_example =
    additions_within_limit start team none "exchanges" 10 7 8 refl (omega arith)

-- A scheme for the tests: a text decodes to itself, and a signature is the header and the payload.
abbrev plain : Codec String String
plain = record {
  decode = some;
  verify = λ key signed signature. str_eq signature key && str_eq signed "h.team";
  parse_claims = λ body. some (record { subject = body; hwid = ""; expiry = pos 1 });
}

malformed : verify_jwt plain "h.team" "key" ≡ inr malformed_token
unfolding verify_jwt split
malformed = refl

forged : verify_jwt plain "h.pro.key" "key" ≡ inr invalid_signature
unfolding verify_jwt split
forged = refl

verify_jwt_iff_example :
    (verify_jwt plain "h.team.key" "key"
      ≡ inl (record { subject = "team"; hwid = ""; expiry = pos 1 }))
    ↔ IsSigned plain "key" "h" "team" "key" (record { subject = "team"; hwid = ""; expiry = pos 1 })
unfolding has_dot
verify_jwt_iff_example =
    verify_jwt_iff plain "key" "h" "team" "key"
      (record { subject = "team"; hwid = ""; expiry = pos 1 }) refl refl refl
