-- ===== src/Examples/Certificates.antt =====
-- Runs of a certificate chain and of a JWT that is signed under it.
use aiagent_portable_authori.Base.{
  String, true, false, ◌≡◌, refl, ◌⊎◌, inl, inr, none, some, List, [], ◌∷◌, every, includes, str_eq,
  if◌then◌else◌,
}
use aiagent_portable_authori.Base.Int.{pos, ◌+ℤ◌}
use aiagent_portable_authori.Base.Num.{fin, add_num}
use aiagent_portable_authori.Value.{
  Value, Fields, nil, field, str, arr, obj, get, member, items, to_number,
}
use aiagent_portable_authori.Payload.{Payload}
use aiagent_portable_authori.Delegation.Chain.{verified}
use aiagent_portable_authori.Credential.{plain, validate_audience, list_from_claim, is_fresh}
use aiagent_portable_authori.Credential.Certificates.{
  Certificate, X509Platform, AnchorOptions, chain_pass, parse_entries,
  certificate_fingerprint_sha256, verify_x509_chain_from_header,
}
use aiagent_portable_authori.Credential.Certificates.Identity.{
  X509Issuer, IdentityCheck, validate_certificate_identity,
}
use aiagent_portable_authori.Credential.Certificates.Laws.{IsTrustedChain, verify_x509_chain_sound}
use aiagent_portable_authori.Credential.X509.{
  not_listed, X509Receiver, anchor_options, check_x509_revocation, x509_normalized, verify_x509_jwt,
}
use aiagent_portable_authori.Credential.X509.Laws.{X509Bound, verify_x509_jwt_sound}
use aiagent_portable_authori.Examples.{runtime, amount_at_most}
use aiagent_portable_authori.Examples.Credentials.{claim_proof}

abbrev pub texts : String → Value
texts s = arr (field "0" (str s) nil)

abbrev pub signed_fields : String → Fields
signed_fields iss = field "iss" (str iss) (
    field "sub" (str "agent-a") (
      field "jti" (str "cred-1") (
        field "aud" (str "receiver") (
          field "permissions" (texts "claims.approve") (
            field "constraints" (arr nil) (field "cnf" (obj (field "jwk" (str "key") nil)) nil))))))

-- A leaf that is signed with the key of an intermediate, which the anchor signs.
abbrev certificate : String → String → Certificate
certificate name signer = record {
  fingerprint256 = name;
  valid_from = fin (pos 0);
  valid_to = fin (pos 2000);
  key_usage = "digitalsignature" ∷ [];
  subject_alt_name = "DNS:issuer, URI:https://issuer";
  subject = name;
  public_key = name;
  verify = λ key. str_eq key signer;
  check_host = λ host. str_eq host "issuer";
}

abbrev leaf : Certificate
leaf = certificate "leaf" "middle"

abbrev middle : Certificate
middle = certificate "middle" "anchor"

abbrev certificate_named : Value → String ⊎ Certificate
certificate_named (str s) = if str_eq s "leaf" then inr leaf else inr middle
certificate_named v = inl ""

abbrev platform : X509Platform
platform = record {
  certificate_of = certificate_named;
  certificates_of_pem = λ pem. inr (certificate "anchor" "anchor" ∷ []);
  hostname = λ url. some "issuer";
  without_colons = λ s. s;
  trim = λ s. s;
  trim_start = λ s. s;
  to_lower_case = λ s. s;
  now = fin (pos 1000);
}

abbrev header : Value
header = obj (field "x5c" (arr (field "0" (str "leaf") (field "1" (str "middle") nil))) nil)

abbrev x509_issuer_row : X509Issuer
x509_issuer_row = record {
  trusted_for_permissions = "claims.approve" ∷ [];
  san_uri = "";
  subject = "";
  trust_anchor_pem = "anchor";
  trust_anchor_sha256 = "";
  revocation_policy = "hard-fail";
}

abbrev pub x509_receiver : X509Receiver
x509_receiver = record {
  runtime = runtime;
  platform = platform;
  audiences = "receiver" ∷ [];
  jwt_verify = λ jwt key iss. inr (obj (signed_fields "https://issuer"));
  x509_issuer = λ iss. some x509_issuer_row;
  trust_anchors_pem = "";
  trust_anchor_sha256 = "";
  other_pems = [];
  other_fingerprints = [];
  enforce_key_usage = true;
  skip_revocation = false;
  revoked_certificate = λ fingerprint. not_listed;
  option_policy = "";
  environment_policy = "";
  require_proof = true;
  proof = λ key. some claim_proof;
  request_hash = "hash";
  max_age_seconds = pos 300;
  now_seconds = pos 1200;
  iso_string = λ v. "2026-01-01T00:00:00.000Z";
  read_constraints = λ vs. plain (amount_at_most 1000) ∷ [];
}

abbrev options : AnchorOptions
options = anchor_options x509_receiver x509_issuer_row

chain_passes : verify_x509_chain_from_header platform header options ≡ chain_pass leaf "anchor"
unfolding verify_x509_chain_from_header get
chain_passes = refl

verify_x509_chain_sound_example :
    (rest : List Certificate) × (parse_entries platform (items (member "x5c" header))
      ≡ inr (leaf ∷ rest))
    × IsTrustedChain platform options leaf rest
verify_x509_chain_sound_example =
    verify_x509_chain_sound platform header options leaf "anchor" chain_passes

abbrev x509_result : Payload
x509_result =
    x509_normalized x509_receiver (some "agent-a") false (texts "claims.approve") (arr nil)
      (obj (signed_fields "https://issuer"))

x509_verifies :
    verify_x509_jwt x509_receiver "jwt"
      (some "agent-a")
      false
      (texts "claims.approve")
      (arr nil)
      "https://issuer"
      header
    ≡ some (verified x509_result)
unfolding verify_x509_jwt get list_from_claim is_fresh add_num to_number ◌+ℤ◌
x509_verifies = refl

verify_x509_jwt_sound_example :
    (issuer : X509Issuer) × ((c : Certificate) × ((payload : Value) × (x509_receiver.x509_issuer
            "https://issuer"
          ≡ some issuer)
        × ((rest : List Certificate) × (parse_entries platform (items (member "x5c" header))
              ≡ inr (c ∷ rest))
            × IsTrustedChain platform (anchor_options x509_receiver issuer) c rest)
        × ((check : IdentityCheck) × (validate_certificate_identity platform c "https://issuer"
                issuer
              ≡ some (some check)))
        × (x509_receiver.jwt_verify "jwt" c.public_key "https://issuer" ≡ inr payload)
        × (every (includes issuer.trusted_for_permissions) x509_result.permissions ≡ true)
        × (validate_audience (member "aud" payload) x509_receiver.audiences ≡ true)
        × (check_x509_revocation x509_receiver (certificate_fingerprint_sha256 platform c) issuer
            ≡ none)
        × X509Bound x509_receiver (some "agent-a") false (texts "claims.approve") (arr nil) payload
        × (x509_result
            ≡ x509_normalized x509_receiver
                (some "agent-a")
                false
                (texts "claims.approve")
                (arr nil)
                payload)))
verify_x509_jwt_sound_example =
    verify_x509_jwt_sound x509_receiver "jwt" (some "agent-a") false (texts "claims.approve")
      (arr nil) "https://issuer" header x509_result x509_verifies
