-- ===== src/Credential/Certificates/Identity.antt =====
-- portauth-engine/src/services/x509Verifier.js, `certificateHasUriSan` and
-- `validateCertificateIdentity`: is the leaf of a chain the certificate of its issuer?
use Prim.Native.String.{◌++◌ as text_append}
use aiagent_portable_authori.Base.{
  String, Bool, not, ◌&&◌, ◌||◌, Option, none, some, List, [], ◌∷◌, map, any, if◌then◌else◌, str_eq,
}
use aiagent_portable_authori.Base.Text.{codes, contains, split, starts_with}
use aiagent_portable_authori.Value.{is_blank}
use aiagent_portable_authori.Credential.Certificates.{Certificate, X509Platform}

-- The row of portauth_trusted_issuers at tier 2; `san_uri` is `x509_san_uri || metadata?.x509SanUri`.
pub record X509Issuer : Type 0 where
  pub trusted_for_permissions : List String
  pub san_uri : String
  pub subject : String
  pub trust_anchor_pem : String
  pub trust_anchor_sha256 : String
  pub revocation_policy : String

pub data IdentityCheck : Type 0 where
  configured_san_uri issuer_host_san issuer_uri_san configured_subject : IdentityCheck

module _ (x : X509Platform) (cert : Certificate) where
  -- `split(/,\s*/)`
  abbrev name_entries : List String → List String
  name_entries [] = []
  name_entries (first ∷ later) = first ∷ map x.trim_start later

  -- `certificateHasUriSan`
  unfoldable pub certificate_has_uri_san : String → Bool
  unfolding split
  certificate_has_uri_san uri =
      not (is_blank uri)
      && not (is_blank cert.subject_alt_name)
      && any (λ entry. str_eq entry (text_append "URI:" uri))
          (name_entries (split b',' cert.subject_alt_name))

  unfoldable pub is_url : String → Bool
  unfolding starts_with
  is_url s = starts_with (codes s) (codes "http://") || starts_with (codes s) (codes "https://")

  unfoldable pub identity_of_names : String → X509Issuer → Option IdentityCheck
  unfolding certificate_has_uri_san contains
  identity_of_names issuer_id issuer =
      if not (is_blank issuer_id) && certificate_has_uri_san issuer_id
      then some issuer_uri_san
      else if not (is_blank issuer.subject) && contains (codes cert.subject) (codes issuer.subject)
      then some configured_subject
      else none

  abbrev host_step : String → X509Issuer → Option String → Option (Option IdentityCheck)
  unfolding identity_of_names
  host_step issuer_id issuer none = none
  host_step issuer_id issuer (some host) =
      if cert.check_host host
      then some (some issuer_host_san)
      else some (identity_of_names issuer_id issuer)

  -- `validateCertificateIdentity`: none where the URL of the issuer does not parse, and none inside
  -- where the certificate is not bound to the issuer.
  unfoldable pub validate_certificate_identity : String → X509Issuer → Option (Option IdentityCheck)
  unfolding certificate_has_uri_san is_url host_step identity_of_names
  validate_certificate_identity issuer_id issuer =
      if not (is_blank issuer.san_uri)
      then some (if certificate_has_uri_san issuer.san_uri then some configured_san_uri else none)
      else if is_url issuer_id
      then host_step issuer_id issuer (x.hostname issuer_id)
      else some (identity_of_names issuer_id issuer)
