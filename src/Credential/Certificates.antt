-- ===== src/Credential/Certificates.antt =====
-- portauth-engine/src/services/x509Verifier.js: the certificate chain of a credential's header, the
-- trust anchors, and the binding of a certificate to an issuer. What Node's X509Certificate answers
-- is the record of a certificate; parsing, letter case, blanks and the host of a URL are arguments.
pub mod Laws
pub mod Identity
use aiagent_portable_authori.Base.{
  ℕ, String, Bool, true, false, not, ◌&&◌, ◌||◌, Option, none, some, List, [], ◌∷◌, ◌++◌, map,
  filter, any, includes, is_empty, if◌then◌else◌, str_eq, ◌⊎◌, inl, inr,
}
use aiagent_portable_authori.Base.Num.{Num, nan, fin, ltb_num}
use aiagent_portable_authori.Base.Text.{codes, contains, split, starts_with}
use aiagent_portable_authori.Codes.{
  ErrorCode, x509_chain_missing, x509_chain_invalid, x509_chain_untrusted, x509_certificate_invalid,
  x509_certificate_expired, x509_key_usage_invalid, x509_trust_anchor_missing,
  x509_subject_mismatch, thrown_code,
}
use aiagent_portable_authori.Value.{
  Value, arr, elements, get, member, is_blank, is_truthy, or_value,
}

-- A certificate. `verify` asks whether it is signed with a key, an absent name is the empty text, and
-- the times are milliseconds.
pub record Certificate : Type 0 where
  pub fingerprint256 : String
  pub valid_from : Num
  pub valid_to : Num
  pub key_usage : List String
  pub subject_alt_name : String
  pub subject : String
  pub public_key : String
  pub verify : String → Bool
  pub check_host : String → Bool

-- What the verifier takes from Node: an entry of `x5c` and the certificates of a PEM text, or the code
-- of the error (the empty text where it has none), `new URL(s).hostname` (none: it throws), the texts
-- without colons, blanks at the ends or at the start, and capitals, and the time in milliseconds.
pub record X509Platform : Type 0 where
  pub certificate_of : Value → String ⊎ Certificate
  pub certificates_of_pem : String → String ⊎ List Certificate
  pub hostname : String → Option String
  pub without_colons : String → String
  pub trim : String → String
  pub trim_start : String → String
  pub to_lower_case : String → String
  pub now : Num

-- The settings that the environment gives, and the options of a call.
pub record AnchorOptions : Type 0 where
  pub pem_sources : List String
  pub fingerprint_sources : List String
  pub enforce_key_usage : Bool

pub record Anchors : Type 0 where
  pub anchors : List Certificate
  pub fingerprints : List String

pub data ChainCheck : Type 0 where
  chain_pass : Certificate → String → ChainCheck
  chain_fail : ErrorCode → ChainCheck

-- The leaf with the fingerprint of its anchor, if there is one.
abbrev pub matched : Certificate → Option String → ChainCheck
matched leaf none = chain_fail x509_chain_untrusted
matched leaf (some fingerprint) = chain_pass leaf fingerprint

abbrev code_or : String → ErrorCode
code_or code = if is_blank code then x509_chain_invalid else thrown_code code

abbrev and_then : {A : Type 0} → A → String ⊎ List A → String ⊎ List A
and_then x (inl code) = inl code
and_then x (inr xs) = inr (x ∷ xs)

abbrev append_to : {A : Type 0} → List A → String ⊎ List A → String ⊎ List A
append_to xs (inl code) = inl code
append_to xs (inr ys) = inr (xs ++ ys)

abbrev pub first_error : Option ErrorCode → Option ErrorCode → Option ErrorCode
first_error none rest = rest
first_error (some code) rest = some code

abbrev texts_of : (String → List String) → List String → List String
texts_of f [] = []
texts_of f (s ∷ ss) = f s ++ texts_of f ss

module _ (x : X509Platform) where
  -- `certificateFingerprintSha256`
  unfoldable pub certificate_fingerprint_sha256 : Certificate → String
  certificate_fingerprint_sha256 cert = x.to_lower_case (x.without_colons cert.fingerprint256)

  -- The first entry that does not parse throws.
  unfoldable pub parse_entries : List Value → String ⊎ List Certificate
  parse_entries [] = inr []
  parse_entries (v ∷ vs) =
      let rest = parse_entries vs in
      elim (x.certificate_of v) [ inl code ↦ inl code | inr cert ↦ and_then cert rest ]

  unfoldable pub parse_pems : List String → String ⊎ List Certificate
  parse_pems [] = inr []
  parse_pems (pem ∷ pems) =
      let rest = parse_pems pems in
      elim (x.certificates_of_pem pem) [ inl code ↦ inl code | inr certs ↦ append_to certs rest ]

  -- `parseTrustAnchors`: the sources that are set.
  unfoldable pub configured_fingerprints : List String → List String
  unfolding split
  configured_fingerprints sources =
      filter (λ s. not (is_blank s))
        (map (λ s. x.to_lower_case (x.trim (x.without_colons s)))
          (texts_of (split b',') (filter (λ s. not (is_blank s)) sources)))

  abbrev pub set_pems : AnchorOptions → List String
  set_pems options = filter (λ s. not (is_blank s)) options.pem_sources

  -- `validateCertificateTime`
  abbrev pub period_error : Num → Num → Num → Option ErrorCode
  period_error now (fin from) (fin to) =
      if ltb_num now (fin from)
      then some x509_certificate_expired
      else if ltb_num (fin to) now
      then some x509_certificate_expired
      else none
  period_error now _ _ = some x509_certificate_invalid

  unfoldable pub validate_certificate_time : Num → Certificate → Option ErrorCode
  validate_certificate_time now cert = period_error now cert.valid_from cert.valid_to

  unfoldable pub first_time_error : Num → List Certificate → Option ErrorCode
  unfolding validate_certificate_time
  first_time_error now [] = none
  first_time_error now (cert ∷ certs) =
      let rest = first_time_error now certs in first_error (validate_certificate_time now cert) rest

  abbrev is_signing_usage : String → Bool
  unfolding contains
  is_signing_usage usage =
      any (λ part. contains (codes (x.to_lower_case usage)) (codes part))
        ("digitalsignature" ∷ "digital signature" ∷ "code signing" ∷ "client authentication"
          ∷ "1.3.6.1.5.5.7.3.2" ∷ "1.3.6.1.5.5.7.3.3" ∷ [])

  -- `validateKeyUsage`
  unfoldable pub validate_key_usage : AnchorOptions → Certificate → Bool
  unfolding contains
  validate_key_usage options cert =
      not options.enforce_key_usage
      || is_empty cert.key_usage
      || any is_signing_usage cert.key_usage

  -- `verifyChainSignatures`: each certificate is signed with the key of the next one.
  unfoldable pub verify_chain_signatures : Certificate → List Certificate → Bool
  verify_chain_signatures cert [] = true
  verify_chain_signatures cert (next ∷ rest) =
      cert.verify next.public_key && verify_chain_signatures next rest

  abbrev pub tail_of : Certificate → List Certificate → Certificate
  tail_of cert [] = cert
  tail_of cert (next ∷ rest) = tail_of next rest

  -- Is the last certificate of a chain the anchor, or signed by it?
  abbrev pub is_anchored : Certificate → Certificate → Bool
  is_anchored last anchor =
      str_eq (certificate_fingerprint_sha256 last) (certificate_fingerprint_sha256 anchor)
      || last.verify anchor.public_key

  unfoldable pub match_anchors : List String → Certificate → List Certificate → Option String
  unfolding certificate_fingerprint_sha256
  match_anchors fingerprints last [] = none
  match_anchors fingerprints last (anchor ∷ anchors) =
      let rest = match_anchors fingerprints last anchors in
      if includes fingerprints (certificate_fingerprint_sha256 anchor) && is_anchored last anchor
      then some (certificate_fingerprint_sha256 anchor)
      else if is_anchored last anchor
      then some (certificate_fingerprint_sha256 anchor)
      else rest

  -- `findMatchingAnchor`: the fingerprint of the anchor.
  unfoldable pub find_matching_anchor : Certificate → Anchors → Option String
  unfolding match_anchors certificate_fingerprint_sha256
  find_matching_anchor last a =
      if includes a.fingerprints (certificate_fingerprint_sha256 last)
      then some (certificate_fingerprint_sha256 last)
      else match_anchors a.fingerprints last a.anchors

  -- `verifyX509ChainFromHeader`, from its last check to its first.
  unfoldable pub anchor_step : Certificate → List Certificate → Anchors → ChainCheck
  unfolding find_matching_anchor
  anchor_step leaf rest a =
      if is_empty a.anchors && is_empty a.fingerprints
      then chain_fail x509_trust_anchor_missing
      else matched leaf (find_matching_anchor (tail_of leaf rest) a)

  unfoldable pub anchors_step :
      List String → Certificate → List Certificate → String ⊎ List Certificate → ChainCheck
  unfolding anchor_step
  anchors_step prints leaf rest (inl code) = chain_fail (code_or code)
  anchors_step prints leaf rest (inr certs) =
      anchor_step leaf rest (record { anchors = certs; fingerprints = prints })

  unfoldable pub leaf_step : AnchorOptions → Certificate → List Certificate → ChainCheck
  unfolding anchors_step parse_pems configured_fingerprints validate_key_usage
      verify_chain_signatures
  leaf_step options leaf rest =
      if not (validate_key_usage options leaf)
      then chain_fail x509_key_usage_invalid
      else if not (verify_chain_signatures leaf rest)
      then chain_fail x509_chain_invalid
      else anchors_step (configured_fingerprints options.fingerprint_sources) leaf rest
          (parse_pems (set_pems options))

  abbrev pub timed_step :
      AnchorOptions → Certificate → List Certificate → Option ErrorCode → ChainCheck
  unfolding leaf_step
  timed_step options leaf rest (some code) = chain_fail code
  timed_step options leaf rest none = leaf_step options leaf rest

  unfoldable pub parsed_step : AnchorOptions → String ⊎ List Certificate → ChainCheck
  unfolding timed_step first_time_error
  parsed_step options (inl code) = chain_fail (code_or code)
  parsed_step options (inr []) = chain_fail x509_chain_missing
  parsed_step options (inr (leaf ∷ rest)) =
      timed_step options leaf rest (first_time_error x.now (leaf ∷ rest))

  -- A header without a chain, or with an empty one, has none.
  abbrev pub chain_step : AnchorOptions → Value → ChainCheck
  unfolding parsed_step parse_entries
  chain_step options (arr fs) = parsed_step options (parse_entries (elements fs))
  chain_step options _ = chain_fail x509_chain_missing

  unfoldable pub verify_x509_chain_from_header : Value → AnchorOptions → ChainCheck
  unfolding chain_step get
  verify_x509_chain_from_header header options = chain_step options (member "x5c" header)
