-- ===== src/License.antt =====
-- internal/license/license.go and models.go: the token of a license and the local evaluation of its
-- state. The encodings, the signature scheme and SHA-256 are parameters.
pub mod Entitlement
pub mod Grace
pub mod Agreement
pub mod Tokens
mod Tests
use Prim.Native.Char.{Char, code}
use kairos_agent.Base.{
  ℕ, String, ◌⊎◌, inl, inr, Bool, not, Option, none, some, List, [], ◌∷◌, append, ◌==◌,
  if◌then◌else◌,
}
use kairos_agent.Base.Int.{ℤ, pos, negsuc, ◌+ℤ◌, ◌-ℤ◌, ◌*ℤ◌, ltb_ℤ, leb_ℤ, eqb_ℤ}
use kairos_agent.Entity.Agent.{license_licensed, license_grace, license_risk_only}

-- `models.go` has the same strings as the domain's license states, and one more.
abbrev pub State : Type 0
State = String

abbrev pub state_unlicensed : State
state_unlicensed = "unlicensed"

pub record Claims : Type 0 where
  pub subject : String
  pub hwid : String
  pub expiry : ℤ

pub data TokenError : Type 0 where
  malformed_token : TokenError
  payload_undecodable : TokenError
  signature_undecodable : TokenError
  invalid_signature : TokenError
  claims_undecodable : TokenError

-- `base64.RawURLEncoding.DecodeString`, `ed25519.Verify` and `json.Unmarshal`. Keys are of type `K`,
-- decoded bytes of type `B`.
pub record Codec (K : Type 0) (B : Type 0) : Type 0 where
  pub decode : String → Option B
  pub verify : K → String → B → Bool
  pub parse_claims : B → Option Claims

-- `strings.Split` at a separator of one character, given by its number.
abbrev pub cons_first : Char → List String → List String
cons_first c [] = String.◌∷◌ c String.[] ∷ []
cons_first c (part ∷ parts) = String.◌∷◌ c part ∷ parts

unfoldable pub split : ℕ → String → List String
split separator String.[] = String.[] ∷ []
split separator (String.◌∷◌ c rest) =
    let parts = split separator rest in
    if code c == separator then String.[] ∷ parts else cons_first c parts

abbrev pub dot : ℕ
dot = 46

module _ {K : Type 0} {B : Type 0} (codec : Codec K B) where
  parsed : Option Claims → Claims ⊎ TokenError
  parsed none = inr claims_undecodable
  parsed (some claims) = inl claims

  checked : K → String → B → Option B → Claims ⊎ TokenError
  unfolding parsed
  checked key signed payload none = inr signature_undecodable
  checked key signed payload (some signature) =
      if not (codec.verify key signed signature)
      then inr invalid_signature
      else parsed (codec.parse_claims payload)

  decoded : K → String → String → Option B → Claims ⊎ TokenError
  unfolding checked
  decoded key signed signature none = inr payload_undecodable
  decoded key signed signature (some payload) = checked key signed payload (codec.decode signature)

  unfoldable pub verify_parts : K → List String → Claims ⊎ TokenError
  unfolding decoded
  verify_parts key (header ∷ payload ∷ signature ∷ []) =
      decoded key (append header (append "." payload)) signature (codec.decode payload)
  verify_parts key _ = inr malformed_token

  -- `VerifyJWT`
  unfoldable pub verify_jwt : String → K → Claims ⊎ TokenError
  unfolding verify_parts
  verify_jwt token key = verify_parts key (split dot token)

-- `time.Unix(seconds, 0)`: nanoseconds since the zero time.
unfoldable pub unix_time : ℤ → ℤ
unix_time seconds = (seconds +ℤ pos 62_135_596_800) *ℤ pos 1_000_000_000

-- `t.Sub(u)`, which stops at the bounds of int64.
unfoldable pub time_sub : ℤ → ℤ → ℤ
time_sub t u =
    let exact = t -ℤ u in
    if ltb_ℤ (pos 9_223_372_036_854_775_807) exact
    then pos 9_223_372_036_854_775_807
    else if ltb_ℤ exact (negsuc 9_223_372_036_854_775_807)
    then negsuc 9_223_372_036_854_775_807
    else exact

-- 48 hours.
abbrev pub grace_period : ℤ
grace_period = pos 172_800_000_000_000

-- The grace period, which is the end of both branches of `EvaluateState`.
unfoldable pub grace_state : ℤ → Option ℤ → State
grace_state now none = license_grace
grace_state now (some started) =
    if leb_ℤ grace_period (time_sub now started) then license_risk_only else license_grace

unfoldable pub evaluate_state : ℤ → Claims → Option ℤ → State
evaluate_state now claims grace_started =
    if eqb_ℤ claims.expiry (pos 0)
    then grace_state now grace_started
    else if ltb_ℤ now (unix_time claims.expiry)
    then license_licensed
    else grace_state now grace_started

-- `Checksum`, with SHA-256 and the hexadecimal encoding as a parameter.
abbrev pub checksum : (String → String) → String → String
checksum sha256_hex token = sha256_hex token
