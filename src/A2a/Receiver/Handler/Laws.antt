-- ===== src/A2a/Receiver/Handler/Laws.antt =====
-- Laws of `handleSendMessage` of extensions/a2a/receiver-middleware/src/index.js over any store that
-- keeps the contract of a task store.
use aiagent_portable_authori.Base.{
  ◌≢◌, String, Bool, true, false, ◌≡◌, refl, inl, inr, Option, none, some, [], ◌∷◌, arith,
  Bool-cases, Option-cases, ap, ◌∙◌, if◌then◌else◌, not, ◌&&◌, eq_iff,
}
use aiagent_portable_authori.Value.{Value, member, is_truthy, is_text}
use aiagent_portable_authori.A2a.TaskStore.{
  patched, Lifecycle, pending, completed, denied, failed, Response, TaskRecord, TaskStore, SetsKey,
  IsLawful,
}
use aiagent_portable_authori.A2a.Receiver.{
  request_id_of, admit, Headers, EngineResult, Config, Fresh, Admitted, admitted,
}
use aiagent_portable_authori.A2a.Receiver.Verdict.{verdict_of, key, pending_record, retry_patch}
use aiagent_portable_authori.A2a.Receiver.Handler.{
  is_failed, Outcome, answered, call, with_request_id, pending_response, final_step, result_step,
  engine_step, retry_step, existing_step, pending_step, handle_send_message, replay_response,
  in_progress, replayed,
}

-- The state of a task for a result of the engine.
abbrev pub state_of : EngineResult → Lifecycle
state_of r =
    if not r.ok && not (is_truthy (member "decision" r.body))
    then failed
    else if is_text "allow" (member "decision" r.body)
    then completed
    else denied

-- The record of a task says what the engine answered; without an answer it is pending.
abbrev pub Reflects : Config → Fresh → Admitted → Option EngineResult → TaskRecord → Type 0
Reflects c f a none r = (r.lifecycle_state ≡ pending) × (r.response ≡ none)
Reflects c f a (some result) r =
    (r.lifecycle_state ≡ state_of result) × (r.response ≡ some (verdict_of c f a result).answer)

-- What the caller is told of the result.
abbrev pub told : Config → Fresh → String → Admitted → Option EngineResult → Option Response
told c f id a none = none
told c f id a (some result) = some (with_request_id id (verdict_of c f a result).answer)

-- A stored task that no request may ask the engine about again.
abbrev pub is_settled : Lifecycle → Bool
is_settled completed = true
is_settled denied = true
is_settled _ = false

verdict_of-patch :
    (c : Config) (f : Fresh) (a : Admitted) (r : EngineResult)
    → ((verdict_of c f a r).patch.lifecycle_state ≡ some (state_of r))
      × ((verdict_of c f a r).patch.response ≡ some (some (verdict_of c f a r).answer))
unfolding verdict_of
verdict_of-patch c f a r =
    elim (Bool-cases (not r.ok && not (is_truthy (member "decision" r.body)))) [
      | inl e ↦ rw e (refl, refl)
      | inr e ↦ rw e (elim (Bool-cases (is_text "allow" (member "decision" r.body))) [
        | inl d ↦ rw d (refl, refl)
        | inr d ↦ rw d (refl, refl)
      ])
    ]

module _ (S : TaskStore) (L : IsLawful S) (c : Config) (f : Fresh) (id : String)
    (a : Admitted) where
  abbrev pub key_of : String
  key_of = c.key_text (key c f a)

  -- The engine is asked once, about a task that is not settled, and the record of the task's key
  -- says what it answered; the caller is told the same.
  pub record Asked (s : S.State) (o : Outcome S.State) : Type 0 where
    pub once : o.calls ≡ call S c f id a ∷ []
    pub new_record : TaskRecord
    pub reflects : Reflects c f a (c.post (call S c f id a)) new_record
    pub tells : o.response ≡ told c f id a (c.post (call S c f id a))
    pub valid : L.IsValid o.store
    pub sets : SetsKey S s key_of new_record o.store

  module _ (s : S.State) (r : TaskRecord) (valid : L.IsValid s)
      (same_key : r.idempotency_key ≡ key_of)
      (found : S.get_by_idempotency_key s r.idempotency_key ≡ some r)
      (is_pending : r.lifecycle_state ≡ pending) (no_answer : r.response ≡ none) where
    sets_same : SetsKey S s key_of r s
    sets_same other = ground (arith, eq_iff key_of other, found, same_key)

    result_step-Asked :
        (result : Option EngineResult)
        → c.post (call S c f id a) ≡ result
        → Asked s (result_step S c f id a s r.id result)
    unfolding result_step final_step
    result_step-Asked none h = record {
      once = refl;
      new_record = r;
      reflects = rw h (is_pending, no_answer);
      tells = rw h refl;
      valid = valid;
      sets = sets_same;
    }
    result_step-Asked (some result) h =
        let v = verdict_of c f a result in
        let (s', (r', updates, u, valid', sets)) = L.update_found s r v.patch f.now valid found in
        let (state, answer) = verdict_of-patch c f a result in
        rw updates (record {
          once = refl;
          new_record = r';
          reflects = rw h (
            u.lifecycle ∙ ap (λ x. patched x r.lifecycle_state) state,
            u.answer ∙ ap (λ x. patched x r.response) answer,
          );
          tells = rw h refl;
          valid = valid';
          sets = rw (← same_key) sets;
        })

  pub SetsKey-self :
      (s s' : S.State) (r : TaskRecord)
      → SetsKey S s key_of r s'
      → S.get_by_idempotency_key s' key_of ≡ some r
  SetsKey-self s s' r h = ground (arith, h key_of, eq_iff key_of key_of)

  SetsKey-trans :
      (s s' s'' : S.State) (r r' : TaskRecord)
      → SetsKey S s key_of r s'
      → SetsKey S s' key_of r' s''
      → SetsKey S s key_of r' s''
  SetsKey-trans s s' s'' r r' h k other = ground (arith, h other, k other)

  -- A record that is pending in `s'`, and was put there for the key in `s`, is asked about.
  engine_step-Asked :
      (s s' : S.State) (r : TaskRecord)
      → L.IsValid s'
      → r.idempotency_key ≡ key_of
      → r.lifecycle_state ≡ pending
      → r.response ≡ none
      → SetsKey S s key_of r s'
      → Asked s (engine_step S c f id a s' r.id)
  engine_step-Asked s s' r valid same_key is_pending no_answer sets =
      let found : S.get_by_idempotency_key s' r.idempotency_key ≡ some r =
        ap (S.get_by_idempotency_key s') same_key ∙ SetsKey-self s s' r sets in
      let asked =
        result_step-Asked s' r valid same_key found is_pending no_answer (c.post (call S c f id a))
          refl in
      record {
        once = asked.once;
        new_record = asked.new_record;
        reflects = asked.reflects;
        tells = asked.tells;
        valid = asked.valid;
        sets =
            SetsKey-trans s s' (engine_step S c f id a s' r.id).store r asked.new_record sets
              asked.sets;
      }

  -- A key that is open: it has no record, or one of a task that failed.
  abbrev pub IsOpen : Option TaskRecord → Type 0
  IsOpen none = Unit
  IsOpen (some r) = r.lifecycle_state ≡ failed

  -- What becomes of an admitted message.
  pub data Handled (s : S.State) (o : Outcome S.State) : Type 0 where
    replays :
        (r : TaskRecord) (answer : Response)
        → S.get_by_idempotency_key s key_of ≡ some r
        → is_settled r.lifecycle_state ≡ true
        → r.response ≡ some answer
        → o ≡ answered S c f id a s [] (replayed r.lifecycle_state answer.status ∷ []) answer
        → Handled s o
    waits :
        (r : TaskRecord)
        → S.get_by_idempotency_key s key_of ≡ some r
        → replay_response r.lifecycle_state r.response ≡ none
        → r.lifecycle_state ≢ failed
        → o ≡ answered S c f id a s [] (in_progress ∷ []) (pending_response r)
        → Handled s o
    asks : IsOpen (S.get_by_idempotency_key s key_of) → Asked s o → Handled s o

  retry-Asked :
      (s : S.State) (r : TaskRecord)
      → L.IsValid s
      → S.get_by_idempotency_key s key_of ≡ some r
      → Asked s (retry_step S c f id a s (S.update s r.id (retry_patch c f a) f.now))
  unfolding retry_step retry_patch
  retry-Asked s r valid h =
      let same_key = L.found_key s key_of r valid h in
      let found : S.get_by_idempotency_key s r.idempotency_key ≡ some r =
        ap (S.get_by_idempotency_key s) same_key ∙ h in
      let (s', (r', updates, u, valid', sets)) =
        L.update_found s r (retry_patch c f a) f.now valid found in
      rw updates (
        engine_step-Asked s s' r' valid' (u.same_key ∙ same_key) u.lifecycle u.answer
          (rw (← same_key) sets))

  existing-Handled :
      (s : S.State) (r : TaskRecord)
      → L.IsValid s
      → S.get_by_idempotency_key s key_of ≡ some r
      → (o : Option Response) → replay_response r.lifecycle_state r.response ≡ o
      → Handled s (existing_step S c f id a s r o)
  unfolding existing_step replay_response
  existing-Handled s r valid h (some answer) e =
      replays r answer h (ground arith) (ground arith) refl
  existing-Handled s r valid h none e = elim (Bool-cases (is_failed r.lifecycle_state)) [
    | inl t ↦ rw t (asks (rw h (ground arith)) (retry-Asked s r valid h))
    | inr t ↦ rw t (waits r h e (ground arith) refl)
  ]

  pending_step-Handled :
      (s : S.State)
      → L.IsValid s
      → L.IsUnused s f.record_id
      → Handled s (pending_step S c f id a s (S.create_pending s (pending_record c f a) f.now))
  unfolding pending_step pending_record
  pending_step-Handled s valid unused = elim (Option-cases (S.get_by_idempotency_key s key_of)) [
    | inl e ↦
        let (s', (r, made, stored, valid', sets)) =
          L.create_new s (pending_record c f a) f.now valid unused e in
        rw made (
          asks (rw e tt)
            (engine_step-Asked s s' r valid' stored.same_key stored.lifecycle stored.answer sets))
    | inr (r, e) ↦
        let made = L.create_found s (pending_record c f a) r f.now valid unused e in
        rw made (existing-Handled s r valid e (replay_response r.lifecycle_state r.response) refl)
  ]

-- An admitted message is answered as before, or told to wait, or the engine is asked about it.
pub handle-Handled :
    (S : TaskStore) (L : IsLawful S) (c : Config) (f : Fresh) (headers : Headers) (body : Value)
    (s : S.State) (a : Admitted)
    → L.IsValid s
    → L.IsUnused s f.record_id
    → admit c headers body ≡ admitted a
    → Handled S L c f (request_id_of headers f) a s (handle_send_message S c f headers body s)
unfolding handle_send_message
handle-Handled S L c f headers body s a valid unused h =
    rw h (pending_step-Handled S L c f (request_id_of headers f) a s valid unused)
