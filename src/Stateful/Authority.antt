-- ===== src/Stateful/Authority.antt =====
-- portauth-engine/src/services/stateAuthorityClient.js: the count that an external authority
-- reports, in a signed proof. The network, the signature check and the clock are arguments.
use aiagent_portable_authori.Base.{
  ℕ, ◌*◌, String, true, false, ◌≡◌, refl, Option, none, some, arith, if◌then◌else◌, str_eq, eq_iff,
}
use aiagent_portable_authori.Base.Int.{ℤ, pos, pos_part, neg_part, sub_ℕ, ◌+ℤ◌, ltb_ℤ}
use aiagent_portable_authori.Codes.{
  ErrorCode, state_authority_untrusted, state_authority_unreachable, state_authority_proof_invalid,
}
use aiagent_portable_authori.Value.{Value, num, is_blank}

-- A row of portauth_state_authorities.
pub record AuthorityRecord : Type 0 where
  pub base_url : String
  pub jwks_uri : String

-- The payload of a proof.
pub record Proof : Type 0 where
  pub iss : String
  pub counter_key : String
  pub window_start : String
  pub value : Value
  pub iat : Value

pub record AuthorityNet : Type 0 where
  pub load_authority : String → Option AuthorityRecord
  -- none: the request fails or is not answered with success
  pub fetch_proof : AuthorityRecord → String → String → String → Option String
  -- none: the key set cannot be read or the signature does not verify
  pub verify_proof_jws : String → String → Option Proof
  pub now_ms : ℤ

pub data Answer : Type 0 where
  answer : ℤ → Answer
  no_answer : ErrorCode → Answer

abbrev pub number_or : Value → (ℤ → Answer) → Answer
number_or (num n) k = k n
number_or _ k = no_answer state_authority_proof_invalid

abbrev pub to_ms : ℤ → ℤ
to_ms n = sub_ℕ (1000 * pos_part n) (1000 * neg_part n)

abbrev fresh_value : ℤ → ℕ → Value → Value → Answer
fresh_value now max_age value iat = number_or value (λ n. number_or iat (λ i.
    if ltb_ℤ (to_ms i +ℤ pos max_age) now
    then no_answer state_authority_proof_invalid
    else answer n))

-- The checks of a verified proof: issuer, counter, window, numbers and age.
unfoldable pub check_proof : ℤ → String → String → String → ℕ → Proof → Answer
check_proof now authority_id counter_key window_start max_age proof =
    if str_eq proof.iss authority_id
    then (if str_eq proof.counter_key counter_key
        then (if str_eq proof.window_start window_start
            then fresh_value now max_age proof.value proof.iat
            else no_answer state_authority_proof_invalid)
        else no_answer state_authority_proof_invalid)
    else no_answer state_authority_proof_invalid

unfoldable pub fetch_current_value_from_authority :
    AuthorityNet → String → String → String → ℕ → Answer
unfolding check_proof
fetch_current_value_from_authority net authority_id counter_key window_start max_age =
    elim (net.load_authority authority_id) [
      | none ↦ no_answer state_authority_untrusted
      | some authority ↦
          if is_blank authority.jwks_uri
          then no_answer state_authority_untrusted
          else elim (net.fetch_proof authority authority_id counter_key window_start) [
            | none ↦ no_answer state_authority_unreachable
            | some jws ↦ elim (net.verify_proof_jws jws authority.jwks_uri) [
              | none ↦ no_answer state_authority_proof_invalid
              | some proof ↦
                  check_proof net.now_ms authority_id counter_key window_start max_age proof
            ]
          ]
    ]

fresh_value_sound :
    (now : ℤ) (max_age : ℕ) (value iat : Value) (n : ℤ)
    → fresh_value now max_age value iat ≡ answer n
    → (value ≡ num n) × ((i : ℤ) × (iat ≡ num i) × (ltb_ℤ (to_ms i +ℤ pos max_age) now ≡ false))
fresh_value_sound now max_age (num v) (num i) n h = (ground arith, (i, refl, ground arith))
fresh_value_sound now max_age (num v) _ n h = cc
fresh_value_sound now max_age _ iat n h = cc

check_proof_names :
    (now : ℤ) (authority_id counter_key window_start : String) (max_age : ℕ) (proof : Proof) (n : ℤ)
    → check_proof now authority_id counter_key window_start max_age proof ≡ answer n
    → (proof.iss ≡ authority_id)
      × (proof.counter_key ≡ counter_key)
      × (proof.window_start ≡ window_start)
      × (fresh_value now max_age proof.value proof.iat ≡ answer n)
unfolding check_proof
check_proof_names now a c w max_age proof n h =
    let i : str_eq proof.iss a ≡ true = ground arith in
    let k : str_eq proof.counter_key c ≡ true = ground arith in
    let v : str_eq proof.window_start w ≡ true = ground arith in
    ((eq_iff _ _).0 i, (eq_iff _ _).0 k, (eq_iff _ _).0 v, rw v at (rw k at (rw i at h)))

-- A count is accepted only from a proof that names the authority, the counter and the window that
-- were asked for, gives the count as a number, and is not older than allowed.
pub check_proof_sound :
    (now : ℤ) (authority_id counter_key window_start : String) (max_age : ℕ) (proof : Proof) (n : ℤ)
    → check_proof now authority_id counter_key window_start max_age proof ≡ answer n
    → (proof.iss ≡ authority_id)
      × (proof.counter_key ≡ counter_key)
      × (proof.window_start ≡ window_start)
      × (proof.value ≡ num n)
      × ((iat : ℤ) × (proof.iat ≡ num iat) × (ltb_ℤ (to_ms iat +ℤ pos max_age) now ≡ false))
unfolding check_proof
check_proof_sound now a c w max_age proof n h =
    let (iss, key, window, rest) = check_proof_names now a c w max_age proof n h in
    let (value, fresh) = fresh_value_sound now max_age proof.value proof.iat n rest in
    (iss, key, window, value, fresh)
