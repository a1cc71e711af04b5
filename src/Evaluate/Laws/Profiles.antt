-- ===== src/Evaluate/Laws/Profiles.antt =====
-- Laws of POST /evaluate on a credential of any profile (routes/evaluate.js and
-- credentialVerifier.js together).
use aiagent_portable_authori.Base.{String, true, false, ◌≡◌, ◌∙◌, ap, some, List, [], ◌∷◌}
use aiagent_portable_authori.Base.Text.{split}
use aiagent_portable_authori.Value.{Value, str, get, member, includes_value}
use aiagent_portable_authori.Payload.{Payload}
use aiagent_portable_authori.Workflow.{allow}
use aiagent_portable_authori.Delegation.Chain.{Verification, verified}
use aiagent_portable_authori.StatusList.Check.{Cache}
use aiagent_portable_authori.Credential.Profiles.{Profiles, verify_credential}
use aiagent_portable_authori.Credential.Profiles.Laws.{IsTrusted, verify_credential-Grants}
use aiagent_portable_authori.Evaluate.{Store, Engine, Body, enriched, evaluate}
use aiagent_portable_authori.Evaluate.Laws.Single.{evaluate_allow}
use aiagent_portable_authori.Evaluate.Laws.Trust.{includes_value-every}

-- The second part of a credential is its claims.
abbrev pub Carries : Profiles → String → Value → Type 0
Carries n credential claims =
    (a : String) × ((b : String) × ((c : String) × (split b'.' credential ≡ a ∷ b ∷ c ∷ [])
        × (n.parse_part b ≡ some claims)))

-- Where the verification of a credential, of whichever profile, returns a result, POST /evaluate allows
-- it only if it is verified, it carries claims that name an issuer, and a row of the trusted issuers at
-- the tier of the verified payload trusts this issuer for the very action that is requested.
pub evaluate_allow-IsTrusted :
    (e : Engine) (n : Profiles) (credential : String) (body : Body) (s : Store) (cache : Cache)
    (v : Verification)
    → (verify_credential n credential (some body.presenter_id) false cache).1 ≡ some v
    → (evaluate e v credential body s).1.decision ≡ some allow
    → (p : Payload) × ((claims : Value) × ((issuer : String) × ((allowed : List String) × (v
              ≡ verified p)
            × Carries n credential claims
            × (member "iss" claims ≡ str issuer)
            × IsTrusted n issuer p.trust_tier allowed
            × (includes_value allowed (get "action" (enriched body p)) ≡ true))))
evaluate_allow-IsTrusted e n credential body s cache v verification h =
    let (p, found, granted) = evaluate_allow e v body s credential h in
    let (
      a,
      (
        b,
        (
          c,
          (
            header,
            (
              claims,
              parts,
              parsed_header,
              parsed,
              components,
              (issuer, named, (allowed, trusted, every_permission)),
            ),
          ),
        ),
      ),
    ) =
      verify_credential-Grants n credential (some body.presenter_id) false cache p
        (verification ∙ ap some found) in
    (
      p,
      (
        claims,
        (
          issuer,
          (
            allowed,
            found,
            (a, (b, (c, parts, parsed))),
            named,
            trusted,
            includes_value-every allowed p.permissions (get "action" (enriched body p))
                every_permission (granted.0),
          ),
        ),
      ),
    )
