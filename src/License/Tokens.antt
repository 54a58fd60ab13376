-- ===== src/License/Tokens.antt =====
-- The tokens that `VerifyJWT` accepts.
use Prim.Native.Char.{code}
use Prim.Native.String.{char_at}
use text.Mathlib.TextLemmas.{nil-append, cons-append}
use kairos_agent.Base.{
  String, ◌≡◌, refl, sym, ap, ◌∙◌, ◌↔◌, inl, Bool, true, false, some, [], ◌∷◌, arith, append, ◌==◌,
  if◌then◌else◌, Option-cases,
}
use kairos_agent.License.{Claims, Codec, split, dot, verify_parts, verify_jwt}

unfoldable pub has_dot : String → Bool
has_dot String.[] = false
has_dot (String.◌∷◌ c rest) = let later = has_dot rest in if code c == dot then true else later

split-dotless : (s : String) → has_dot s ≡ false → split dot s ≡ s ∷ []
unfolding split has_dot
split-dotless String.[] h = refl
split-dotless (String.◌∷◌ c rest) h = let later = split-dotless rest in ground (arith, later)

split-append :
    (s t : String) → has_dot s ≡ false → split dot (append s (append "." t)) ≡ s ∷ split dot t
unfolding split has_dot
split-append String.[] t h = ap (split dot) (
    nil-append (append "." t)
    ∙ cons-append (char_at "." 0) String.[] t
    ∙ ap (String.◌∷◌ (char_at "." 0)) (nil-append t))
split-append (String.◌∷◌ c rest) t h =
    let later = split-append rest t in
    let moved = ap (split dot) (cons-append c rest (append "." t)) in ground (arith, later, moved)

module _ {K : Type 0} {B : Type 0} (codec : Codec K B) where
  -- The payload and the signature decode, the signature is one of the header and the payload, and
  -- the payload holds the claims.
  abbrev pub IsSigned : K → String → String → String → Claims → Type 0
  IsSigned key header payload signature claims =
      (body : B) × (signed : B) × (codec.decode payload ≡ some body)
      × (codec.decode signature ≡ some signed)
      × (codec.verify key (append header (append "." payload)) signed ≡ true)
      × (codec.parse_claims body ≡ some claims)

  verify_parts_iff :
      (key : K) (header payload signature : String) (claims : Claims)
      → (verify_parts codec key (header ∷ payload ∷ signature ∷ []) ≡ inl claims)
        ↔ IsSigned key header payload signature claims
  unfolding verify_parts
  verify_parts_iff key header payload signature claims =
      ground (arith, Option-cases (codec.decode payload), Option-cases (codec.decode signature))

  -- A token of three parts without dots is accepted with some claims exactly when its payload and its
  -- signature decode, the signature verifies for the header and the payload, and the claims are those
  -- of the payload.
  pub verify_jwt_iff :
      (key : K) (header payload signature : String) (claims : Claims)
      → has_dot header ≡ false
      → has_dot payload ≡ false
      → has_dot signature ≡ false
      → (verify_jwt codec (append header (append "." (append payload (append "." signature)))) key
          ≡ inl claims)
        ↔ IsSigned key header payload signature claims
  unfolding verify_jwt
  verify_jwt_iff key header payload signature claims h p s =
      let rest = append payload (append "." signature) in
      let parts : split dot (append header (append "." rest)) ≡ header ∷ payload ∷ signature ∷ [] =
        cc (
          split-append header rest h,
          split-append payload signature p,
          split-dotless signature s,
        ) in
      let same = ap (verify_parts codec key) parts in
      let parts_iff = verify_parts_iff key header payload signature claims in
      (λ accepted. parts_iff.0 (sym same ∙ accepted), λ signed. same ∙ parts_iff.1 signed)
