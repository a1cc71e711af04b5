-- ===== src/Revocation/Laws.antt =====
-- Laws of the introspection loop.
use aiagent_portable_authori.Base.{
  ℕ, zero, suc, String, Bool, true, false, ◌≡◌, refl, ◌≢◌, Option, some, List, [], ◌∷◌, find?,
  arith, eq_iff,
}
use aiagent_portable_authori.Base.Int.{pos_part}
use aiagent_portable_authori.Value.{is_blank}
use aiagent_portable_authori.Revocation.{
  Reply, thrown, bad_status, body, RevocationOutcome, unavailable, RevocationConfig, verdict_of,
  attempt_from, check_tier1_revocation,
}

abbrev pub is_answer : Reply → Bool
is_answer (body _ _) = true
is_answer _ = false

abbrev pub outcome_of : Option Reply → RevocationOutcome
outcome_of (some (body a r)) = verdict_of a r
outcome_of _ = unavailable

-- The replies to a number of attempts, from one on.
abbrev pub replies : (ℕ → Reply) → ℕ → ℕ → List Reply
replies fetch i zero = []
replies fetch i (suc n) = fetch i ∷ replies fetch (suc i) n

attempt_from-find? :
    (fetch : ℕ → Reply) (i n : ℕ)
    → attempt_from fetch i n ≡ outcome_of (find? is_answer (replies fetch i n))
unfolding attempt_from
attempt_from-find? fetch i zero = refl
attempt_from-find? fetch i (suc n) = step (fetch i) (attempt_from-find? fetch (suc i) n)
  where
    step :
        (r : Reply)
        → attempt_from fetch (suc i) n ≡ outcome_of (find? is_answer (replies fetch (suc i) n))
        → (elim r [
          | thrown ↦ attempt_from fetch (suc i) n
          | bad_status ↦ attempt_from fetch (suc i) n
          | body a v ↦ verdict_of a v
        ])
          ≡ outcome_of (find? is_answer (r ∷ replies fetch (suc i) n))
    step thrown ih = ih
    step bad_status ih = ih
    step (body a v) ih = refl

-- With an endpoint configured, the introspection makes one attempt more than the retries, none
-- less than one, and its outcome is that of the first attempt that is answered; it is unavailable
-- only if no attempt is.
pub check_tier1_revocation-find? :
    (url : String) (config : RevocationConfig) (fetch : ℕ → Reply)
    → url ≢ ""
    → check_tier1_revocation url config fetch
      ≡ outcome_of (find? is_answer (replies fetch 0 (suc (pos_part config.retries))))
unfolding check_tier1_revocation
check_tier1_revocation-find? url config fetch given =
    let named : is_blank url ≡ false = ground (arith, eq_iff url "") in
    rw named (attempt_from-find? fetch 0 (suc (pos_part config.retries)))
