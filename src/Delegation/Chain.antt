-- ===== src/Delegation/Chain.antt =====
-- `verifyDelegationChain`: the loop over the credentials of a chain, root first. The verification
-- of one credential is an argument; the delegation settings of the database are another.
pub mod Laws
use aiagent_portable_authori.Base.{
  ℕ, zero, suc, String, Bool, true, false, not, ◌&&◌, Option, none, some, List, [], ◌∷◌,
  if◌then◌else◌, str_eq, ◌==◌, length, is_empty,
}
use aiagent_portable_authori.Base.Int.{pos}
use aiagent_portable_authori.Base.Num.{Num, fin, ltb_num}
use aiagent_portable_authori.Codes.{
  ErrorCode, delegation_depth_exceeded, delegation_chain_broken, delegation_widened,
  issuer_untrusted,
}
use aiagent_portable_authori.Value.{Runtime, or_default}
use aiagent_portable_authori.Payload.{Payload}
use aiagent_portable_authori.Delegation.{validate_delegation_link, verify_attenuation}

pub data Verification : Type 0 where
  verified : Payload → Verification
  rejected : ErrorCode → Verification

-- The leaf's payload (none for an empty chain) and the depth, or the code and the depth reached.
pub data ChainResult : Type 0 where
  chain_ok : Option Payload → ℕ → ChainResult
  chain_error : ErrorCode → Option ℕ → ChainResult

-- portauth_delegation_config; the empty text stands for a missing key.
pub record DelegationConfig : Type 0 where
  pub max_depth : String
  pub require_attenuation_proof : String

-- A credential, the presenter to bind (none: not the leaf) and whether to skip the proof.
abbrev pub Verifier : Type 0
Verifier = String → Option String → Bool → Verification

-- An untrusted issuer below the root breaks the chain.
unfoldable pub link_code : ℕ → ErrorCode → ErrorCode
link_code zero code = code
link_code (suc i) issuer_untrusted = delegation_chain_broken
link_code (suc i) code = code

-- What is wrong with a payload below `parent`, if anything.
unfoldable pub link_error : Runtime → Bool → Option Payload → Payload → Option ErrorCode
link_error rt require none payload = none
link_error rt require (some parent) payload =
    if validate_delegation_link parent payload
    then (if require && not (verify_attenuation rt parent payload)
        then some delegation_widened
        else none)
    else some delegation_chain_broken

module _ (rt : Runtime) (verify : Verifier) (require : Bool) (presenter : String) where
  abbrev pub verify_at : String → List String → Verification
  verify_at c later =
      verify c (if is_empty later then some presenter else none) (not (is_empty later))

  unfoldable pub chain_loop : ℕ → Option Payload → List String → ChainResult
  chain_loop i parent [] = chain_ok parent i
  chain_loop i parent (c ∷ cs) = elim (verify_at c cs) [
    | rejected code ↦ chain_error (link_code i code) (some i)
    | verified payload ↦ elim (link_error rt require parent payload) [
      | some code ↦ chain_error code (some i)
      | none ↦ chain_loop (suc i) (some payload) cs
    ]
  ]

unfoldable pub verify_delegation_chain :
    Runtime → Verifier → DelegationConfig → List String → String → ChainResult
unfolding chain_loop link_code link_error
verify_delegation_chain rt verify config credentials presenter =
    if ltb_num (rt.parse_int (or_default config.max_depth "5")) (fin (pos (length credentials)))
    then chain_error delegation_depth_exceeded none
    else chain_loop rt verify (not (str_eq config.require_attenuation_proof "false")) presenter 0
        none credentials
