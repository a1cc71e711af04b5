-- ===== src/Evaluate/Workflows/Laws.antt =====
-- Laws of POST /evaluate/workflow.
use aiagent_portable_authori.Base.{
  String, Bool, true, false, ◌||◌, ◌&&◌, not, ◌≡◌, refl, ◌∙◌, Option, none, some, List, [], ◌∷◌,
  map, All, arith, if_holds, is_empty, includes,
}
use aiagent_portable_authori.Value.{fields_of, Value, get, is_blank, includes_value}
use aiagent_portable_authori.Payload.{Payload}
use aiagent_portable_authori.Context.{Envelope}
use aiagent_portable_authori.Evaluator.{evaluate_constraints}
use aiagent_portable_authori.Evaluator.Laws.{Holds, evaluate_constraints_iff}
use aiagent_portable_authori.Delegation.Chain.{Verification, verified, rejected}
use aiagent_portable_authori.Workflow.{
  Decision, allow, deny, WorkflowPolicy, Coverage, covered, missing_roles, unexpected_roles,
  validate_role_coverage, combine_sub_decisions,
}
use aiagent_portable_authori.Workflow.Laws.{Combined, combine_sub_decisions_iff}
use aiagent_portable_authori.Evaluate.{AuditRecord, Store, Response, Engine, is_complete}
use aiagent_portable_authori.Evaluate.Workflows.Policies.{
  IsActivePolicy, load_policy-IsActivePolicy,
}
use aiagent_portable_authori.Evaluate.Workflows.{
  Entry, SubDecision, PolicyRow, Loaded, load_policy, found, not_found, not_loaded,
  declared_permission, write_record, Judged, context_for, sub_record, allowed_entry,
  entry_constraints, entry_payload, entry_verified, judge_entry, and_decision, judge_entries,
  answered, wrapping_record, conclude, covered_step, policy_loaded, evaluate_workflow,
}

module _ (e : Engine) (verify : Entry → Verification) (policy : WorkflowPolicy) (ctx : Value)
    (env : Envelope) where
  -- A credential of a workflow verifies, has its role's permission, if one is declared, and the
  -- requested action, and all its constraints hold.
  abbrev pub EntryGranted : Entry → Payload → Type 0
  EntryGranted entry p =
      (verify entry ≡ verified p)
      × ((is_blank (declared_permission policy entry.role)
            || includes p.permissions (declared_permission policy entry.role))
          ≡ true)
      × (includes_value p.permissions (get "action" (fields_of ctx)) ≡ true)
      × All (Holds e.runtime e.mappings (context_for e verify policy ctx env entry p)) p.constraints

  abbrev pub DecidedAs : Entry → Decision → Type 0
  DecidedAs entry allow = (p : Payload) × EntryGranted entry p
  DecidedAs entry deny = Unit

  -- There is one decision for each credential, and those that allow are granted.
  abbrev pub Decided : List Entry → List Decision → Type 0
  Decided [] [] = Unit
  Decided [] (_ ∷ _) = ⊥
  Decided (_ ∷ _) [] = ⊥
  Decided (entry ∷ entries) (d ∷ ds) = DecidedAs entry d × Decided entries ds

  abbrev Fine : Store → Entry → Judged → Type 0
  Fine s entry none = Unit
  Fine s entry (some r) = (r.0.tables ≡ s.tables) × DecidedAs entry r.1.decision

  write_record-tables :
      (signs : AuditRecord → Bool) (s s' : Store) (r : AuditRecord)
      → write_record signs s r ≡ some s'
      → s'.tables ≡ s.tables
  unfolding write_record
  write_record-tables signs s s' r h = ground arith

  allowed_entry-Fine :
      (s : Store) (entry : Entry) (p : Payload) (written : Option Store)
      → ((s' : Store) → written ≡ some s' → s'.tables ≡ s.tables)
      → EntryGranted entry p
      → Fine s entry (allowed_entry e verify policy ctx env entry written)
  allowed_entry-Fine s entry p none kept granted = tt
  allowed_entry-Fine s entry p (some s') kept granted = (kept s' refl, (p, granted))

  declared_or : (blank has : Bool) → (not blank && not has) ≡ false → (blank || has) ≡ true
  declared_or blank has h = ground arith

  entry_payload-Fine :
      (s : Store) (entry : Entry) (p : Payload)
      → verify entry ≡ verified p
      → Fine s entry (entry_payload e verify policy ctx env s entry p)
  unfolding entry_payload entry_constraints
  entry_payload-Fine s entry p v =
      let enriched = context_for e verify policy ctx env entry p in
      let evaluation = evaluate_constraints e.runtime e.mappings p.constraints enriched in
      if_holds (Fine s entry)
        (not (is_blank (declared_permission policy entry.role))
          && not (includes p.permissions (declared_permission policy entry.role)))
        (λ _. (refl, tt))
        (λ declared.
          if_holds (Fine s entry) (includes_value p.permissions (get "action" (fields_of ctx)))
            (λ included.
              if_holds (Fine s entry) evaluation.pass
                (λ passes.
                  allowed_entry-Fine s entry p
                    (write_record e.signs s
                      (sub_record e verify policy ctx env entry p evaluation.results))
                    (λ s' w. write_record-tables e.signs s s' _ w)
                    (
                      v,
                      declared_or _ _ declared,
                      included,
                      (evaluate_constraints_iff e.runtime e.mappings enriched p.constraints).0
                          passes,
                    ))
                (λ _. (refl, tt)))
            (λ _. (refl, tt)))

  entry_verified-Fine :
      (s : Store) (entry : Entry) (v : Verification)
      → verify entry ≡ v
      → Fine s entry (entry_verified e verify policy ctx env s entry v)
  unfolding entry_verified
  entry_verified-Fine s entry (rejected code) h = (refl, tt)
  entry_verified-Fine s entry (verified p) h = entry_payload-Fine s entry p h

  judge_entry-Fine :
      (s : Store) (entry : Entry) → Fine s entry (judge_entry e verify policy ctx env s entry)
  unfolding judge_entry
  judge_entry-Fine s entry =
      if_holds (Fine s entry)
        (is_blank entry.credential || is_blank entry.presenter_id || is_blank entry.role)
        (λ _. (refl, tt)) (λ _. entry_verified-Fine s entry (verify entry) refl)

  abbrev decisions : List SubDecision → List Decision
  decisions ds = map (λ d. d.decision) ds

  abbrev FineAll : Store → List Entry → Option (Store × List SubDecision) → Type 0
  FineAll s entries none = Unit
  FineAll s entries (some r) = (r.0.tables ≡ s.tables) × Decided entries (decisions r.1)

  and_decision-FineAll :
      (s t : Store) (entry : Entry) (d : SubDecision) (entries : List Entry)
      (rest : Option (Store × List SubDecision))
      → t.tables ≡ s.tables
      → DecidedAs entry d.decision
      → FineAll t entries rest
      → FineAll s (entry ∷ entries) (and_decision e verify policy ctx env d rest)
  and_decision-FineAll s t entry d entries none same decided fine = tt
  and_decision-FineAll s t entry d entries (some (u, ds)) same decided (kept, all) =
      (kept ∙ same, (decided, all))

  judge_entries-FineAll :
      (s : Store) (entries : List Entry)
      → FineAll s entries (judge_entries e verify policy ctx env s entries)
  unfolding judge_entries
  judge_entries-FineAll s [] = (refl, tt)
  judge_entries-FineAll s (entry ∷ entries) =
      onward (λ t. judge_entries-FineAll t entries) (judge_entry e verify policy ctx env s entry)
        (judge_entry-Fine s entry)
    where
      onward :
          ((t : Store) → FineAll t entries (judge_entries e verify policy ctx env t entries))
          → (o : Judged) → Fine s entry o
          → FineAll s (entry ∷ entries) (elim o [
            | none ↦ none
            | some r ↦
                and_decision e verify policy ctx env r.1
                  (judge_entries e verify policy ctx env r.0 entries)
          ])
      onward later none _ = tt
      onward later (some (t, d)) (same, decided) =
          and_decision-FineAll s t entry d entries (judge_entries e verify policy ctx env t entries)
            same decided (later t)

  -- What a response of the workflow endpoint rests on, given the policy.
  abbrev pub Rests : List Entry → Response → Option Decision → Type 0
  Rests entries r none = Unit
  Rests entries r (some deny) = Unit
  Rests entries r (some allow) =
      (validate_role_coverage policy (map (λ c. c.role) entries) ≡ covered)
      × ((ds : List Decision) × Decided entries ds
          × Combined policy.combinator policy.threshold_n ds)

  abbrev Concluded : Store → List Entry → Option (Store × Response) → Type 0
  Concluded s entries none = Unit
  Concluded s entries (some r) = (r.0.tables ≡ s.tables) × Rests entries r.1 r.1.decision

  answered-Concluded :
      (s : Store) (entries : List Entry) (ds : List Decision) (d : Decision)
      (written : Option Store)
      → validate_role_coverage policy (map (λ c. c.role) entries) ≡ covered
      → Decided entries ds
      → combine_sub_decisions policy ds ≡ d
      → ((s' : Store) → written ≡ some s' → s'.tables ≡ s.tables)
      → Concluded s entries (answered e verify policy ctx env d written)
  answered-Concluded s entries ds d none cover decided c kept = tt
  answered-Concluded s entries ds deny (some t) cover decided c kept = (kept t refl, tt)
  answered-Concluded s entries ds allow (some t) cover decided c kept =
      (kept t refl, (cover, (ds, decided, (combine_sub_decisions_iff policy ds).0 c)))

  conclude-Concluded :
      (s : Store) (entries : List Entry) (r : Option (Store × List SubDecision))
      → validate_role_coverage policy (map (λ c. c.role) entries) ≡ covered
      → FineAll s entries r
      → Concluded s entries (conclude e verify policy ctx env r)
  unfolding conclude
  conclude-Concluded s entries none cover fine = tt
  conclude-Concluded s entries (some (t, ds)) cover (same, decided) =
      answered-Concluded s entries (decisions ds) (combine_sub_decisions policy (decisions ds))
        (write_record e.signs t
          (wrapping_record e verify policy ctx env (combine_sub_decisions policy (decisions ds))))
        cover decided refl (λ s' w. write_record-tables e.signs t s' _ w ∙ same)

  pub covered_step-Concluded :
      (s : Store) (entries : List Entry) (c : Coverage)
      → validate_role_coverage policy (map (λ x. x.role) entries) ≡ c
      → Concluded s entries (covered_step e verify policy ctx env s entries c)
  unfolding covered_step
  covered_step-Concluded s entries covered h =
      conclude-Concluded s entries (judge_entries e verify policy ctx env s entries) h
        (judge_entries-FineAll s entries)
  covered_step-Concluded s entries (missing_roles _) h = (refl, tt)
  covered_step-Concluded s entries (unexpected_roles _) h = (refl, tt)

module _ (e : Engine) (verify : Entry → Verification) (rows : Option (List PolicyRow))
    (policy_id : String) (entries : List Entry) (ctx : Value) (env : Envelope) (s : Store) where
  -- The loaded policy's roles are covered, and its combinator holds of decisions whose allowances
  -- are granted.
  abbrev pub AllowedUnder : WorkflowPolicy → Type 0
  AllowedUnder policy =
      (validate_role_coverage policy (map (λ c. c.role) entries) ≡ covered)
      × ((ds : List Decision) × Decided e verify policy ctx env entries ds
          × Combined policy.combinator policy.threshold_n ds)

  abbrev Done : Option (Store × Response) → Type 0
  Done none = Unit
  Done (some r) =
      (r.0.tables ≡ s.tables)
      × (r.1.decision ≡ some allow
          → (policy : WorkflowPolicy) × (load_policy rows policy_id ≡ found policy)
            × AllowedUnder policy)

  Concluded-Done :
      (policy : WorkflowPolicy) (o : Option (Store × Response))
      → load_policy rows policy_id ≡ found policy
      → Concluded e verify policy ctx env s entries o
      → Done o
  Concluded-Done policy none l c = tt
  Concluded-Done policy (some (t, r)) l (same, rests) = (
    same,
    λ h. (policy, l, mathlib.Core.Path.subst (Rests e verify policy ctx env entries r) h rests),
  )

  policy_loaded-Done :
      (loaded : Loaded)
      → load_policy rows policy_id ≡ loaded
      → Done (policy_loaded e verify ctx env entries s loaded)
  unfolding policy_loaded
  policy_loaded-Done not_found h = (refl, λ d. cc)
  policy_loaded-Done not_loaded h = (refl, λ d. cc)
  policy_loaded-Done (found policy) h = Concluded-Done policy _ h (
      covered_step-Concluded e verify policy ctx env s entries
        (validate_role_coverage policy (map (λ c. c.role) entries)) refl)

  evaluate_workflow-Done : Done (evaluate_workflow e verify rows policy_id entries ctx env s)
  unfolding evaluate_workflow
  evaluate_workflow-Done =
      if_holds Done (is_blank policy_id) (λ _. (refl, λ d. cc))
        (λ _.
          if_holds Done (is_empty entries) (λ _. (refl, λ d. cc))
            (λ _.
              if_holds Done (is_complete ctx)
                (λ _. policy_loaded-Done (load_policy rows policy_id) refl) (λ _. (refl, λ d. cc))))

  active_allowance :
      ((policy : WorkflowPolicy) × (load_policy rows policy_id ≡ found policy)
        × AllowedUnder policy)
      → (policy : WorkflowPolicy) × (load_policy rows policy_id ≡ found policy)
        × IsActivePolicy policy_id policy
        × AllowedUnder policy
  active_allowance (policy, l, u) =
      (policy, l, load_policy-IsActivePolicy rows policy_id policy l, u)

  -- POST /evaluate/workflow allows only under the policy of an active row, whose roles the credentials cover,
  -- and whose combinator holds of one decision per credential, where a decision allows only for a
  -- credential that verifies, has its role's permission and the action, and whose constraints hold.
  pub evaluate_workflow_allow :
      (after : Store) (r : Response)
      → evaluate_workflow e verify rows policy_id entries ctx env s ≡ some (after, r)
      → r.decision ≡ some allow
      → (policy : WorkflowPolicy) × (load_policy rows policy_id ≡ found policy)
        × IsActivePolicy policy_id policy
        × AllowedUnder policy
  evaluate_workflow_allow after r h d =
      active_allowance ((mathlib.Core.Path.subst Done h evaluate_workflow-Done).1 d)

  -- Whatever POST /evaluate/workflow answers, the counters and their events are as they were.
  pub evaluate_workflow_keeps_tables :
      (after : Store) (r : Response)
      → evaluate_workflow e verify rows policy_id entries ctx env s ≡ some (after, r)
      → after.tables ≡ s.tables
  evaluate_workflow_keeps_tables after r h =
      (mathlib.Core.Path.subst Done h evaluate_workflow-Done).0
