-- ===== src/LocalPolicy.antt =====
-- portauth-engine/src/services/localPolicyMerge.js: receiver-local policies are evaluated as more
-- constraints. The rows of active policies are an argument.
use aiagent_portable_authori.Base.{
  ℕ, String, Bool, true, false, not, ◌&&◌, ◌≡◌, ◌↔◌, refl, Option, none, some, List, [], ◌∷◌, ◌++◌,
  if◌then◌else◌, map, filter, any, includes, is_empty, All, arith, Bool-cases, inl, inr,
}
use aiagent_portable_authori.Value.{Value, Runtime, is_blank}
use aiagent_portable_authori.Payload.{Constraint, Payload}
use aiagent_portable_authori.Semantic.{Mappings}
use aiagent_portable_authori.Evaluator.{CheckResult, evaluate_constraints, result_fails}
use aiagent_portable_authori.Evaluator.Laws.{Holds, evaluate_constraints_iff}

-- A row of portauth_local_policies; constraints that are not an array count as none.
pub record Policy : Type 0 where
  pub id : ℕ
  pub name : String
  pub target_permissions : List String
  pub constraints : List Constraint

-- `localPolicyDetail`, with the first failed result and the policy that its constraint is from.
pub data Detail : Type 0 where
  no_detail : Detail
  denied_by : Option (Policy × Constraint) → Option CheckResult → Detail
  evaluated : List String → Detail

pub record Merge : Type 0 where
  pub applied : Bool
  pub detail : Detail
  pub denied : Bool
  pub results : List CheckResult

-- Does a policy apply: to every request if it names no permission, else to the requested action,
-- or, without one, to any permission of the credential.
unfoldable pub applies : String → List String → Policy → Bool
applies action permissions policy =
    if is_empty policy.target_permissions
    then true
    else if is_blank action
    then any (λ p. includes policy.target_permissions p) permissions
    else includes policy.target_permissions action

owned : Policy → List Constraint → List (Policy × Constraint)
owned policy [] = []
owned policy (c ∷ cs) = (policy, c) ∷ owned policy cs

-- The constraints of all policies, each with its policy.
unfoldable pub all_local_constraints : List Policy → List (Policy × Constraint)
unfolding owned
all_local_constraints [] = []
all_local_constraints (p ∷ ps) = owned p p.constraints ++ all_local_constraints ps

abbrev pub bare : List (Policy × Constraint) → List Constraint
bare [] = []
bare ((_, c) ∷ ocs) = c ∷ bare ocs

-- The constraint at the place of the first failed result.
abbrev pub first_failed :
    List (Policy × Constraint) → List CheckResult → Option (Policy × Constraint)
first_failed [] rs = none
first_failed (oc ∷ ocs) [] = none
first_failed (oc ∷ ocs) (r ∷ rs) = if result_fails r then some oc else first_failed ocs rs

abbrev nothing_applied : Merge
nothing_applied = record { applied = false; detail = no_detail; denied = false; results = [] }

module _ (rt : Runtime) (mappings : Mappings) (ctx : Value) where
  unfoldable pub merge_policies : List Policy → Merge
  merge_policies policies =
      let ocs = all_local_constraints policies in
      let evaluation = evaluate_constraints rt mappings (bare ocs) ctx in
      if evaluation.pass
      then record {
        applied = true;
        detail = evaluated (map (λ p. p.name) policies);
        denied = false;
        results = evaluation.results;
      }
      else record {
        applied = true;
        detail =
            denied_by (first_failed ocs evaluation.results)
              (aiagent_portable_authori.Base.find? result_fails evaluation.results);
        denied = true;
        results = evaluation.results;
      }

  unfoldable pub apply_local_policy_merge : Payload → String → List Policy → Merge
  unfolding merge_policies
  apply_local_policy_merge payload action policies =
      if is_empty (filter (applies action payload.permissions) policies)
      then nothing_applied
      else merge_policies (filter (applies action payload.permissions) policies)

  -- Every constraint of a policy holds in the context.
  abbrev pub PolicyHolds : Policy → Type 0
  PolicyHolds policy = All (Holds rt mappings ctx) policy.constraints

  bare-owned :
      (policy : Policy) (cs : List Constraint) (rest : List (Policy × Constraint))
      → All (Holds rt mappings ctx) (bare (owned policy cs ++ rest))
        ↔ (All (Holds rt mappings ctx) cs × All (Holds rt mappings ctx) (bare rest))
  unfolding owned
  bare-owned policy [] rest = (λ h. (tt, h), λ h. h.1)
  bare-owned policy (c ∷ cs) rest = (
    λ h. ((h.0, ((bare-owned policy cs rest).0 h.1).0), ((bare-owned policy cs rest).0 h.1).1),
    λ h. (h.0.0, (bare-owned policy cs rest).1 (h.0.1, h.1)),
  )

  bare-All :
      (policies : List Policy)
      → All (Holds rt mappings ctx) (bare (all_local_constraints policies))
        ↔ All PolicyHolds policies
  unfolding all_local_constraints
  bare-All [] = (λ _. tt, λ _. tt)
  bare-All (p ∷ ps) = (
    λ h.
        let (own, others) = (bare-owned p p.constraints (all_local_constraints ps)).0 h in
        (own, (bare-All ps).0 others),
    λ h. (bare-owned p p.constraints (all_local_constraints ps)).1 (h.0, (bare-All ps).1 h.1),
  )

  merge_policies_iff :
      (policies : List Policy)
      → ((merge_policies policies).denied ≡ false) ↔ (
          (evaluate_constraints rt mappings (bare (all_local_constraints policies)) ctx).pass
          ≡ true)
  unfolding merge_policies
  merge_policies_iff policies = ground arith

  -- Local policy lets a request through exactly when every constraint of every policy that applies
  -- to it holds, so policies can only lower what the credential grants.
  pub apply_local_policy_merge_iff :
      (payload : Payload) (action : String) (policies : List Policy)
      → ((apply_local_policy_merge payload action policies).denied ≡ false)
        ↔ All PolicyHolds (filter (applies action payload.permissions) policies)
  unfolding apply_local_policy_merge
  apply_local_policy_merge_iff payload action policies =
      go (filter (applies action payload.permissions) policies)
    where
      go :
          (ps : List Policy)
          → ((if is_empty ps then nothing_applied else merge_policies ps).denied ≡ false)
            ↔ All PolicyHolds ps
      go [] = (λ _. tt, λ _. refl)
      go (p ∷ ps) =
          let every_one =
            evaluate_constraints_iff rt mappings ctx (bare (all_local_constraints (p ∷ ps))) in
          let (to, from) = merge_policies_iff (p ∷ ps) in
          (
            λ h. (bare-All (p ∷ ps)).0 (every_one.0 (to h)),
            λ h. from (every_one.1 ((bare-All (p ∷ ps)).1 h)),
          )
