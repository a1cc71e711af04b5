-- ===== src/Credential/VcJose/Claims.antt =====
-- portauth-engine/src/services/credentialVerifier.js, `extractConfirmationJwk` and the claims that
-- `verifyVcJose` reads from a payload and its `vc` object. Where reading throws there is none.
use aiagent_portable_authori.Base.{
  Bool, false, Option, none, some, List, [], ◌∷◌, any, if◌then◌else◌,
}
use aiagent_portable_authori.Base.Text.{codes, contains}
use aiagent_portable_authori.Value.{
  Value, null, str, arr, get, member, elements, is_string, is_text, is_truthy, or_value,
}

abbrev pub first_truthy : List Value → Value
first_truthy [] = null
first_truthy (v ∷ vs) = or_value v (first_truthy vs)

-- `extractConfirmationJwk`
unfoldable pub extract_confirmation_jwk : Value → Value → Value
unfolding is_truthy get
extract_confirmation_jwk payload vc =
    let subject = member "credentialSubject" vc in
    first_truthy (
      member "jwk" (member "cnf" payload)
      ∷ member "jwk" (member "confirmation" payload)
      ∷ member "proofKeyJwk" payload
      ∷ member "jwk" (member "cnf" subject)
      ∷ member "proofKeyJwk" subject
      ∷ [])

-- What the claims and the `vc` object say, top-level claims first.
abbrev string_or_null : Value → Value
string_or_null v = if is_string v then v else null

abbrev authorization_of : Value → Value
authorization_of vc = member "authorization" (member "credentialSubject" vc)

unfoldable pub agent_of : Value → Value → Value
unfolding is_truthy get
agent_of payload vc = or_value (member "sub" payload) (
    or_value (member "id" (member "credentialSubject" vc))
      (string_or_null (member "credentialSubject" vc)))

unfoldable pub permissions_of : Value → Value → Value
unfolding is_truthy get
permissions_of payload vc = or_value (member "permissions" payload) (
    or_value (member "permissions" (member "credentialSubject" vc))
      (member "permissions" (authorization_of vc)))

unfoldable pub constraints_of : Value → Value → Value
unfolding is_truthy get
constraints_of payload vc = or_value (member "constraints" payload) (
    or_value (member "termsOfUse" payload) (
      or_value (member "constraints" (member "credentialSubject" vc))
        (or_value (member "constraints" (authorization_of vc)) (member "termsOfUse" vc))))

unfoldable pub credential_id_of : Value → Value → Value
unfolding is_truthy get
credential_id_of payload vc = first_truthy (member "jti" payload ∷ member "id" vc ∷ [])

unfoldable pub delegated_from_of : Value → Value → Value
unfolding is_truthy get
delegated_from_of payload vc =
    first_truthy
      (member "delegatedFrom" payload ∷ member "delegatedFrom" (member "credentialSubject" vc) ∷ [])

unfoldable pub status_entry_of : Value → Value → Value
unfolding is_truthy get
status_entry_of payload vc =
    or_value (member "credentialStatus" vc) (member "credentialStatus" payload)

-- `(vc.type || []).includes("VerifiableCredential")`: on a text it looks for a part, and on any other
-- value it throws.
unfoldable pub has_credential_type : Value → Option Bool
unfolding is_truthy contains
has_credential_type (arr fs) = some (any (is_text "VerifiableCredential") (elements fs))
has_credential_type (str s) = some (contains (codes s) (codes "VerifiableCredential"))
has_credential_type type = if is_truthy type then none else some false
