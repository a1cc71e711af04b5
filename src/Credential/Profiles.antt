-- ===== src/Credential/Profiles.antt =====
-- portauth-engine/src/services/credentialVerifier.js, `verifyCredential`: decoding, the components that
-- every credential has, and the choice of the profile. The parsing of a part of a JWT is an argument,
-- and so is the reading of a plain JWT's claims as a record. An exception gives none.
pub mod Laws
use aiagent_portable_authori.Base.{
  String, Bool, true, false, not, ◌&&◌, ◌||◌, Option, none, some, List, [], ◌∷◌, is_empty,
  if◌then◌else◌,
}
use aiagent_portable_authori.Base.Text.{codes, split, starts_with}
use aiagent_portable_authori.Codes.{ErrorCode, credential_incomplete}
use aiagent_portable_authori.Value.{
  Value, undefined, null, str, get, member, items, is_array, is_nullish, is_object, is_truthy,
  or_value,
}
use aiagent_portable_authori.Delegation.Chain.{Verification, verified, rejected}
use aiagent_portable_authori.StatusList.Check.{Cache}
use aiagent_portable_authori.Credential.{Claims, Receiver, verify_plain_jwt}
use aiagent_portable_authori.Credential.VcJose.{VcReceiver, Verified, verify_vc_jose}
use aiagent_portable_authori.Credential.X509.{X509Receiver, verify_x509_jwt}

-- The three profiles of one receiver.
pub record Profiles : Type 0 where
  pub parse_part : String → Option Value
  pub read_claims : Value → Claims
  pub plain : Receiver
  pub x509 : X509Receiver
  pub vc_jose : VcReceiver

pub data Profile : Type 0 where
  tier1_jwt tier2_x509_jwt vc_jose_profile : Profile

abbrev subject_of : Value → Value
subject_of claims = member "credentialSubject" (member "vc" claims)

-- `topPerms` and `topConstraints`
unfoldable pub top_permissions : Value → Value
unfolding is_truthy get
top_permissions claims = or_value (member "permissions" claims) (
    or_value (member "permissions" (subject_of claims))
      (member "permissions" (member "authorization" (subject_of claims))))

unfoldable pub top_constraints : Value → Value
unfolding is_truthy get
top_constraints claims = or_value (member "constraints" claims) (
    or_value (member "termsOfUse" claims) (
      or_value (member "constraints" (subject_of claims))
        (member "constraints" (member "authorization" (subject_of claims)))))

-- `hasX5c`, `hasVcClaim` and `credentialProfile`
abbrev has_x5c : Value → Bool
has_x5c header = is_array (member "x5c" header) && not (is_empty (items (member "x5c" header)))

abbrev has_vc_claim : Value → Bool
has_vc_claim claims = is_truthy (member "vc" claims) && is_object (member "vc" claims)

unfoldable pub profile_of : Value → Value → String → Profile
unfolding starts_with is_truthy get
profile_of header claims iss =
    if has_x5c header
    then tier2_x509_jwt
    else if starts_with (codes iss) (codes "did:") || has_vc_claim claims
    then vc_jose_profile
    else tier1_jwt

module _ (n : Profiles) (credential : String) (presenter : Option String) (skip_proof : Bool)
    (cache : Cache) where
  abbrev incomplete : Verified
  incomplete = (cache, some (rejected credential_incomplete))

  -- The claims of a plain JWT from the given issuer.
  abbrev pub plain_claims : Value → String → Claims
  plain_claims claims issuer = record (n.read_claims claims) { iss = issuer }

  unfoldable pub profile_step : Value → Value → String → Profile → Verified
  unfolding verify_x509_jwt verify_vc_jose verify_plain_jwt top_permissions top_constraints
  profile_step header claims iss tier2_x509_jwt = (
    cache,
    verify_x509_jwt n.x509 credential presenter skip_proof (top_permissions claims)
        (top_constraints claims) iss header,
  )
  profile_step header claims iss vc_jose_profile =
      verify_vc_jose n.vc_jose credential presenter skip_proof iss cache header
  profile_step header claims iss tier1_jwt = (
    cache,
    some (verify_plain_jwt n.plain credential presenter skip_proof (plain_claims claims iss)),
  )

  -- `claims.iss.startsWith` throws on anything but a text, and `header.x5c` on null.
  unfoldable pub route_step : Value → Value → Value → Verified
  unfolding profile_step profile_of
  route_step header claims (str iss) =
      if is_nullish header
      then (cache, none)
      else profile_step header claims iss (profile_of header claims iss)
  route_step header claims _ = (cache, none)

  unfoldable pub structure_step : Value → Value → Verified
  unfolding route_step top_permissions top_constraints is_truthy get
  structure_step header claims =
      if is_nullish claims
      then (cache, none)
      else if not (is_truthy (member "iss" claims))
      then incomplete
      else if not (is_truthy (member "sub" claims))
      then incomplete
      else if not (is_array (top_permissions claims))
      then incomplete
      else if not (is_array (top_constraints claims))
      then incomplete
      else route_step header claims (member "iss" claims)

  unfoldable pub decoded_step : Option Value → Option Value → Verified
  unfolding structure_step
  decoded_step (some header) (some claims) = structure_step header claims
  decoded_step _ _ = incomplete

  abbrev pub parts_step : List String → Verified
  unfolding decoded_step
  parts_step (header ∷ claims ∷ _ ∷ []) = decoded_step (n.parse_part header) (n.parse_part claims)
  parts_step _ = incomplete

  unfoldable pub verify_credential : Verified
  unfolding parts_step split
  verify_credential = parts_step (split b'.' credential)
