-- ===== src/Workflow.antt =====
-- portauth-engine/src/services/workflowEvaluator.js: the roles that a workflow policy asks for, and
-- the one decision that is made of a decision per credential.
pub mod Laws
use aiagent_portable_authori.Base.{
  ℕ, String, Bool, true, false, not, List, [], ◌∷◌, if◌then◌else◌, map, filter, is_empty, includes,
  length, leb, ◌==◌,
}
use aiagent_portable_authori.Base.Int.{ℤ, pos}
use aiagent_portable_authori.Base.Num.{Num, leb_num, fin}

pub data Decision : Type 0 where
  allow deny : Decision

pub data Combinator : Type 0 where
  require_all require_any threshold : Combinator
  other_combinator : String → Combinator

pub record RequiredRole : Type 0 where
  pub role : String
  pub permission : String

-- A row of portauth_workflow_policies; `threshold_n` is `Number(policy.threshold_n || 0)`.
pub record WorkflowPolicy : Type 0 where
  pub id : String
  pub combinator : Combinator
  pub threshold_n : Num
  pub required_roles : List RequiredRole

-- The roles that are missing, or else those that are not asked for.
pub data Coverage : Type 0 where
  covered : Coverage
  missing_roles unexpected_roles : List String → Coverage

abbrev pub required : WorkflowPolicy → List String
required policy = map (λ r. r.role) policy.required_roles

unfoldable pub unexpected_of : List String → Coverage
unexpected_of extra = if is_empty extra then covered else unexpected_roles extra

unfoldable pub coverage_of : List String → List String → List String → Coverage
unfolding unexpected_of
coverage_of missing required presented =
    if is_empty missing
    then unexpected_of (filter (λ r. not (includes required r)) presented)
    else missing_roles missing

unfoldable pub validate_role_coverage : WorkflowPolicy → List String → Coverage
unfolding coverage_of
validate_role_coverage policy presented =
    coverage_of (filter (λ r. not (includes presented r)) (required policy)) (required policy)
      presented

abbrev pub is_allow : Decision → Bool
is_allow allow = true
is_allow deny = false

abbrev pub decide : Bool → Decision
decide b = if b then allow else deny

-- `combineSubDecisions`, without the texts of its reasons.
unfoldable pub combine : Combinator → Num → ℕ → ℕ → Decision
combine require_all n allows total = decide (allows == total)
combine require_any n allows total = decide (leb 1 allows)
combine threshold n allows total = decide (leb_num n (fin (pos allows)))
combine (other_combinator _) n allows total = deny

unfoldable pub combine_sub_decisions : WorkflowPolicy → List Decision → Decision
unfolding combine
combine_sub_decisions policy decisions =
    combine policy.combinator policy.threshold_n (length (filter is_allow decisions))
      (length decisions)
