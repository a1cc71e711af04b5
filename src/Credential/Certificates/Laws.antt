-- ===== src/Credential/Certificates/Laws.antt =====
-- Laws of the certificate chain in portauth-engine/src/services/x509Verifier.js.
use mathlib.Core.Path.{subst}
use aiagent_portable_authori.Base.{
  sym, String, Bool, true, false, ◌&&◌, ◌≡◌, refl, ◌⊎◌, inl, inr, Option, none, some, List, [], ◌∷◌,
  arith, In, includes, is_empty, if◌then◌else◌,
}
use aiagent_portable_authori.Base.Int.{ℤ}
use aiagent_portable_authori.Base.Num.{Num, nan, fin, ltb_num}
use aiagent_portable_authori.Codes.{ErrorCode, x509_trust_anchor_missing}
use aiagent_portable_authori.Value.{Value, arr, elements, items, member}
use aiagent_portable_authori.Credential.Certificates.{
  Certificate, X509Platform, AnchorOptions, Anchors, chain_pass, chain_fail,
  certificate_fingerprint_sha256, parse_entries, parse_pems, configured_fingerprints, set_pems,
  validate_certificate_time, first_time_error, validate_key_usage, verify_chain_signatures, tail_of,
  is_anchored, match_anchors, find_matching_anchor, anchor_step, anchors_step, leaf_step,
  parsed_step, period_error, first_error, matched, timed_step, chain_step,
  verify_x509_chain_from_header,
}

match_cases :
    (pinned fits : Bool) (f g : String) (rest : Option String)
    → (if pinned && fits then some f else if fits then some f else rest) ≡ some g
    → (fits ≡ true) ⊎ (rest ≡ some g)
match_cases pinned true f g rest h = inl refl
match_cases true false f g rest h = inr h
match_cases false false f g rest h = inr h

matched_cases :
    (bare pinned : Bool) (leaf cert : Certificate) (g f : String) (o : Option String)
    → (if bare
        then chain_fail x509_trust_anchor_missing
        else matched leaf (if pinned then some g else o))
      ≡ chain_pass cert f
    → (cert ≡ leaf) × ((pinned ≡ true) ⊎ (o ≡ some f))
matched_cases true pinned leaf cert g f o h = cc
matched_cases false true leaf cert g f o h = (cc, inl refl)
matched_cases false false leaf cert g f none h = cc
matched_cases false false leaf cert g f (some e) h = (cc, inr cc)

first_none : (o rest : Option ErrorCode) → first_error o rest ≡ none → (o ≡ none) × (rest ≡ none)
first_none none rest h = (refl, h)
first_none (some code) rest h = cc

module _ (x : X509Platform) where
  -- A time lies in the period of a certificate.
  abbrev pub InPeriod : Num → Certificate → Type 0
  InPeriod now cert =
      (from : ℤ) × ((to : ℤ) × (cert.valid_from ≡ fin from)
        × (cert.valid_to ≡ fin to)
        × (ltb_num now (fin from) ≡ false)
        × (ltb_num (fin to) now ≡ false))

  abbrev pub AllInPeriod : Num → List Certificate → Type 0
  AllInPeriod now [] = Unit
  AllInPeriod now (cert ∷ certs) = InPeriod now cert × AllInPeriod now certs

  -- The last certificate is pinned, or it is an anchor or signed by one.
  abbrev pub IsAnchored : Certificate → Anchors → Type 0
  IsAnchored last a =
      (includes a.fingerprints (certificate_fingerprint_sha256 x last) ≡ true)
      ⊎ ((anchor : Certificate) × In anchor a.anchors × (is_anchored x last anchor ≡ true))

  match_sound :
      (prints : List String) (last : Certificate) (anchors : List Certificate) (f : String)
      → match_anchors x prints last anchors ≡ some f
      → (anchor : Certificate) × In anchor anchors × (is_anchored x last anchor ≡ true)
  unfolding match_anchors
  match_sound prints last [] f h = cc
  match_sound prints last (anchor ∷ anchors) f h =
      elim (match_cases (includes prints (certificate_fingerprint_sha256 x anchor))
        (is_anchored x last anchor) (certificate_fingerprint_sha256 x anchor) f
        (match_anchors x prints last anchors) h) [
          | inl e ↦ (anchor, inl refl, e)
          | inr e ↦
              let (found, at_later, fits) = match_sound prints last anchors f e in
              (found, inr at_later, fits)
        ]

  anchor_sound :
      (leaf : Certificate) (rest : List Certificate) (a : Anchors) (cert : Certificate) (f : String)
      → anchor_step x leaf rest a ≡ chain_pass cert f
      → (cert ≡ leaf) × IsAnchored (tail_of x leaf rest) a
  unfolding anchor_step find_matching_anchor
  anchor_sound leaf rest a cert f h =
      let last = tail_of x leaf rest in
      let (same, found) =
        matched_cases (is_empty a.anchors && is_empty a.fingerprints)
          (includes a.fingerprints (certificate_fingerprint_sha256 x last)) leaf cert
          (certificate_fingerprint_sha256 x last) f (match_anchors x a.fingerprints last a.anchors)
          h in
      elim found [
        | inl pinned ↦ (same, inl pinned)
        | inr e ↦ (same, inr (match_sound a.fingerprints last a.anchors f e))
      ]

  period_sound :
      (now from to : Num)
      → period_error x now from to ≡ none
      → (a : ℤ) × ((b : ℤ) × (from ≡ fin a)
          × (to ≡ fin b)
          × (ltb_num now (fin a) ≡ false)
          × (ltb_num (fin b) now ≡ false))
  period_sound now (fin a) (fin b) h =
      let (start, end) : (ltb_num now (fin a) ≡ false) × (ltb_num (fin b) now ≡ false) =
        ground arith in
      (a, (b, refl, refl, start, end))
  period_sound now (fin a) nan h = cc
  period_sound now nan to h = cc

  time_sound :
      (now : Num) (cert : Certificate)
      → validate_certificate_time x now cert ≡ none
      → InPeriod now cert
  unfolding validate_certificate_time
  time_sound now cert h = period_sound now cert.valid_from cert.valid_to h

  times_sound :
      (now : Num) (certs : List Certificate)
      → first_time_error x now certs ≡ none
      → AllInPeriod now certs
  unfolding first_time_error
  times_sound now [] h = tt
  times_sound now (cert ∷ certs) h =
      let (first, later) =
        first_none (validate_certificate_time x now cert) (first_time_error x now certs) h in
      (time_sound now cert first, times_sound now certs later)

  leaf_sound :
      (options : AnchorOptions) (leaf : Certificate) (rest : List Certificate) (cert : Certificate)
      (f : String)
      → leaf_step x options leaf rest ≡ chain_pass cert f
      → (validate_key_usage x options leaf ≡ true)
        × (verify_chain_signatures x leaf rest ≡ true)
        × (anchors_step x
              (configured_fingerprints x options.fingerprint_sources)
              leaf
              rest
              (parse_pems x (set_pems x options))
            ≡ chain_pass cert f)
  unfolding leaf_step
  leaf_sound options leaf rest cert f h = ground arith

  anchors_sound :
      (prints : List String) (leaf : Certificate) (rest : List Certificate)
      (parsed : String ⊎ List Certificate) (cert : Certificate) (f : String)
      → anchors_step x prints leaf rest parsed ≡ chain_pass cert f
      → (anchors : List Certificate) × (parsed ≡ inr anchors)
        × (cert ≡ leaf)
        × IsAnchored (tail_of x leaf rest) (record { anchors = anchors; fingerprints = prints })
  unfolding anchors_step
  anchors_sound prints leaf rest (inl code) cert f h = cc
  anchors_sound prints leaf rest (inr anchors) cert f h =
      let (same, anchored) =
        anchor_sound leaf rest (record { anchors = anchors; fingerprints = prints }) cert f h in
      (anchors, refl, same, anchored)

  timed_sound :
      (options : AnchorOptions) (leaf : Certificate) (rest : List Certificate)
      (error : Option ErrorCode) (cert : Certificate) (f : String)
      → timed_step x options leaf rest error ≡ chain_pass cert f
      → (error ≡ none) × (leaf_step x options leaf rest ≡ chain_pass cert f)
  unfolding timed_step
  timed_sound options leaf rest none cert f h = (refl, h)
  timed_sound options leaf rest (some code) cert f h = cc

  -- Each certificate is signed with the key of the next one.
  abbrev pub AllSigned : Certificate → List Certificate → Type 0
  AllSigned cert [] = Unit
  AllSigned cert (next ∷ rest) = (cert.verify next.public_key ≡ true) × AllSigned next rest

  signatures_sound :
      (cert : Certificate) (rest : List Certificate)
      → verify_chain_signatures x cert rest ≡ true
      → AllSigned cert rest
  unfolding verify_chain_signatures
  signatures_sound cert [] h = tt
  signatures_sound cert (next ∷ rest) h =
      let (signed, later) : (cert.verify next.public_key ≡ true)
          × (verify_chain_signatures x next rest ≡ true) =
        ground arith in
      (signed, signatures_sound next rest later)

  -- What an accepted chain is.
  abbrev pub IsTrustedChain : AnchorOptions → Certificate → List Certificate → Type 0
  IsTrustedChain options leaf rest =
      AllInPeriod x.now (leaf ∷ rest)
      × (validate_key_usage x options leaf ≡ true)
      × AllSigned leaf rest
      × ((anchors : List Certificate) × (parse_pems x (set_pems x options) ≡ inr anchors)
          × IsAnchored (tail_of x leaf rest) (record {
            anchors = anchors;
            fingerprints = configured_fingerprints x options.fingerprint_sources;
          }))

  parsed_sound :
      (options : AnchorOptions) (parsed : String ⊎ List Certificate) (cert : Certificate)
      (f : String)
      → parsed_step x options parsed ≡ chain_pass cert f
      → (rest : List Certificate) × (parsed ≡ inr (cert ∷ rest)) × IsTrustedChain options cert rest
  unfolding parsed_step
  parsed_sound options (inl code) cert f h = cc
  parsed_sound options (inr []) cert f h = cc
  parsed_sound options (inr (leaf ∷ rest)) cert f h =
      let (timely, at_leaf) =
        timed_sound options leaf rest (first_time_error x x.now (leaf ∷ rest)) cert f h in
      let (usage, signed, at_anchors) = leaf_sound options leaf rest cert f at_leaf in
      let (anchors, known, same, anchored) =
        anchors_sound (configured_fingerprints x options.fingerprint_sources) leaf rest
          (parse_pems x (set_pems x options)) cert f at_anchors in
      subst
        (λ c.
          (later : List Certificate) × (Path (String ⊎ List Certificate) (inr (leaf ∷ rest))
            (inr (c ∷ later)))
          × IsTrustedChain options c later)
        (sym same)
        (
          rest,
          refl,
          (
            times_sound x.now (leaf ∷ rest) timely,
            usage,
            signatures_sound leaf rest signed,
            (anchors, known, anchored),
          ),
        )

  chain_sound :
      (chain : Value) (options : AnchorOptions) (cert : Certificate) (f : String)
      → chain_step x options chain ≡ chain_pass cert f
      → (rest : List Certificate) × (parse_entries x (items chain) ≡ inr (cert ∷ rest))
        × IsTrustedChain options cert rest
  unfolding chain_step
  chain_sound (arr fs) options cert f h =
      parsed_sound options (parse_entries x (elements fs)) cert f h
  chain_sound _ options cert f h = cc

  -- A header's chain is accepted only if it parses and is not empty, the leaf handed on is its first
  -- certificate, the time lies in the period of each, the leaf may sign, each is signed with the key
  -- of the next, the configured anchors parse, and the last is pinned by a configured fingerprint, or
  -- is a configured anchor or signed by one.
  pub verify_x509_chain_sound :
      (header : Value) (options : AnchorOptions) (cert : Certificate) (f : String)
      → verify_x509_chain_from_header x header options ≡ chain_pass cert f
      → (rest : List Certificate) × (parse_entries x (items (member "x5c" header))
          ≡ inr (cert ∷ rest))
        × IsTrustedChain options cert rest
  unfolding verify_x509_chain_from_header
  verify_x509_chain_sound header options cert f h =
      chain_sound (member "x5c" header) options cert f h
