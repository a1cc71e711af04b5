-- ===== src/Revocation.antt =====
-- portauth-engine/src/services/revocationClient.js: the introspection of a credential, tried again
-- when it fails. The replies to the attempts are an argument.
pub mod Laws
use aiagent_portable_authori.Base.{
  ℕ, zero, suc, String, Bool, true, false, ◌||◌, Option, none, some, if◌then◌else◌, str_eq,
}
use aiagent_portable_authori.Base.Int.{ℤ, pos_part}
use aiagent_portable_authori.Value.{Value, bool, is_blank}

-- What an attempt gives: an error, a status that is no success, or a body with its two fields.
pub data Reply : Type 0 where
  thrown : Reply
  bad_status : Reply
  body : Value → Value → Reply

pub data RevocationOutcome : Type 0 where
  skipped active revoked unavailable : RevocationOutcome

pub record RevocationConfig : Type 0 where
  pub retries : ℤ
  pub failure_mode : String

-- `a ?? b ?? c`
abbrev pub first_of {ℓ} : {A : Type ℓ} → Option A → Option A → A → A
first_of (some a) _ _ = a
first_of none (some b) _ = b
first_of none none c = c

-- The caller's setting, else the issuer's, else the environment's.
unfoldable pub resolve_revocation_config :
    Option ℤ → Option ℤ → ℤ → Option String → Option String → String → RevocationConfig
resolve_revocation_config caller_retries issuer_retries env_retries caller_mode issuer_mode
      env_mode =
    record {
      retries = first_of caller_retries issuer_retries env_retries;
      failure_mode = first_of caller_mode issuer_mode env_mode;
    }

abbrev pub is_false : Value → Bool
is_false (bool false) = true
is_false _ = false

abbrev pub is_true : Value → Bool
is_true (bool true) = true
is_true _ = false

abbrev pub verdict_of : Value → Value → RevocationOutcome
verdict_of active_field revoked_field =
    if is_false active_field || is_true revoked_field then revoked else active

-- The loop over the attempts, from one on, while some are left.
unfoldable pub attempt_from : (ℕ → Reply) → ℕ → ℕ → RevocationOutcome
attempt_from fetch i zero = unavailable
attempt_from fetch i (suc left) = elim (fetch i) [
  | thrown ↦ attempt_from fetch (suc i) left
  | bad_status ↦ attempt_from fetch (suc i) left
  | body a r ↦ verdict_of a r
]

unfoldable pub check_tier1_revocation : String → RevocationConfig → (ℕ → Reply) → RevocationOutcome
unfolding attempt_from
check_tier1_revocation introspection_url config fetch =
    if is_blank introspection_url
    then skipped
    else attempt_from fetch 0 (suc (pos_part config.retries))
