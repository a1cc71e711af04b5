-- ===== src/Delegation/Authority.antt =====
-- Laws of `verifyAttenuation`, for one link of a chain.
use mathlib.Core.Bool.{false≢true}
use aiagent_portable_authori.Base.{
  String, true, ◌≡◌, List, [], ◌∷◌, every, find?, All, Option-cases, inl, inr, includes, &&-eq-true,
  every-includes, find?-test, find?-All,
}
use aiagent_portable_authori.Value.{Value, Runtime}
use aiagent_portable_authori.Payload.{Constraint, Payload}
use aiagent_portable_authori.Semantic.{Mappings}
use aiagent_portable_authori.Evaluator.{evaluate_constraints}
use aiagent_portable_authori.Evaluator.Laws.{Holds, evaluate_constraints_iff}
use aiagent_portable_authori.Delegation.{constraints_same_target, kept_by, verify_attenuation}
use aiagent_portable_authori.Delegation.Keeps.{Keeps}
use aiagent_portable_authori.Delegation.Sound.{is_more_restrictive-Holds}

-- Wherever a constraint of the delegate has the target of one of the parent's, it keeps the parts
-- that the comparison takes for granted.
abbrev pub Comparable : Runtime → Payload → Payload → Type 0
Comparable rt parent delegate =
    All (λ p. All (λ d. constraints_same_target p d ≡ true → Keeps rt p d) delegate.constraints)
      parent.constraints

module _ (rt : Runtime) (m : Mappings) (ctx : Value) where
  kept_by-Holds :
      (p : Constraint) (ds : List Constraint)
      → All (λ d. constraints_same_target p d ≡ true → Keeps rt p d) ds
      → kept_by rt ds p ≡ true
      → All (Holds rt m ctx) ds
      → Holds rt m ctx p
  unfolding kept_by
  kept_by-Holds p ds keeps h hold = elim (Option-cases (find? (constraints_same_target p) ds)) [
    | inl missing ↦ absurd (false≢true (rw (missing, kept_by) at h))
    | inr (d, found) ↦
        is_more_restrictive-Holds rt m ctx p d
          (find?-All (λ d. constraints_same_target p d ≡ true → Keeps rt p d)
            (constraints_same_target p) ds d found keeps
            (find?-test (constraints_same_target p) ds d found))
          (rw (found, kept_by) at h)
          (find?-All (Holds rt m ctx) (constraints_same_target p) ds d found hold)
  ]

  every-kept_by :
      (ps ds : List Constraint)
      → All (λ p. All (λ d. constraints_same_target p d ≡ true → Keeps rt p d) ds) ps
      → every (kept_by rt ds) ps ≡ true
      → All (Holds rt m ctx) ds
      → All (Holds rt m ctx) ps
  every-kept_by [] ds keeps h hold = tt
  every-kept_by (p ∷ ps) ds keeps h hold = (
    kept_by-Holds p ds keeps.0 (&&-eq-true _ _ h).0 hold,
    every-kept_by ps ds keeps.1 (&&-eq-true _ _ h).1 hold,
  )

  -- One link of a chain whose attenuation is verified: where the two payloads are comparable, an
  -- action that the delegate's permissions contain is one of the parent's, and a request that meets
  -- every constraint of the delegate meets every constraint of the parent.
  pub verify_attenuation-authority :
      (parent delegate : Payload) (action : String)
      → Comparable rt parent delegate
      → verify_attenuation rt parent delegate ≡ true
      → includes delegate.permissions action ≡ true
      → (evaluate_constraints rt m delegate.constraints ctx).pass ≡ true
      → (includes parent.permissions action ≡ true)
        × ((evaluate_constraints rt m parent.constraints ctx).pass ≡ true)
  unfolding verify_attenuation
  verify_attenuation-authority parent delegate action keeps h granted pass =
      let (perms, kept) = &&-eq-true _ _ h in
      (
        every-includes (includes parent.permissions) delegate.permissions action perms granted,
        (evaluate_constraints_iff rt m ctx parent.constraints).1 (
            every-kept_by parent.constraints delegate.constraints keeps kept
              ((evaluate_constraints_iff rt m ctx delegate.constraints).0 pass)),
      )
