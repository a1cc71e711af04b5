-- ===== src/A2a/Receiver/Laws.antt =====
-- Laws of `handleSendMessage` of extensions/a2a/receiver-middleware/src/index.js over any store, one
-- that fails included.
use aiagent_portable_authori.Base.{
  if_holds, String, ◌≡◌, ◌≢◌, refl, ◌⊎◌, inl, inr, Option, none, some, [], ◌∷◌, Option-cases,
}
use aiagent_portable_authori.Value.{Value, null}
use aiagent_portable_authori.A2a.Header.{Headers}
use aiagent_portable_authori.A2a.TaskStore.{Response, TaskRecord, Created, TaskStore}
use aiagent_portable_authori.A2a.Receiver.{
  EngineCall, EngineResult, Config, Fresh, Admitted, Admission, thrown, refused, admitted, admit,
  engine_call, request_id_of,
}
use aiagent_portable_authori.A2a.Receiver.Checks.{admit-ne-thrown, Passes, admit-Passes}
use aiagent_portable_authori.A2a.Receiver.Verdict.{pending_record, retry_patch, verdict_of, key}
use aiagent_portable_authori.A2a.Receiver.Handler.{
  replay_response, is_failed, Outcome, call, final_step, result_step, retry_step, existing_step,
  pending_step, admission_step, handle_send_message,
}

module _ (S : TaskStore) (c : Config) (f : Fresh) (id : String) (a : Admitted) where
  -- The engine is asked once at most, and about this message.
  abbrev AsksOnce : Outcome S.State → Type 0
  AsksOnce o = (o.calls ≡ []) ⊎ (o.calls ≡ call S c f id a ∷ [])

  result_step-AsksOnce :
      (s : S.State) (record_id : String) (r : Option EngineResult)
      → AsksOnce (result_step S c f id a s record_id r)
  unfolding result_step final_step
  result_step-AsksOnce s record_id none = inr refl
  result_step-AsksOnce s record_id (some r) =
      elim (Option-cases (S.update s record_id (verdict_of c f a r).patch f.now)) [
        | inl e ↦ rw e (inr refl)
        | inr e ↦ rw e.1 (inr refl)
      ]

  retry_step-AsksOnce :
      (s : S.State) (o : Option (S.State × TaskRecord)) → AsksOnce (retry_step S c f id a s o)
  unfolding retry_step
  retry_step-AsksOnce s none = inl refl
  retry_step-AsksOnce s (some (s', r)) = result_step-AsksOnce s' r.id (c.post (call S c f id a))

  existing_step-AsksOnce :
      (s : S.State) (r : TaskRecord) (o : Option Response)
      → AsksOnce (existing_step S c f id a s r o)
  unfolding existing_step
  existing_step-AsksOnce s r (some answer) = inl refl
  existing_step-AsksOnce s r none =
      if_holds AsksOnce (is_failed r.lifecycle_state)
        (λ _. retry_step-AsksOnce s (S.update s r.id (retry_patch c f a) f.now)) (λ _. inl refl)

  pending_step-AsksOnce :
      (s : S.State) (o : Option (S.State × Created)) → AsksOnce (pending_step S c f id a s o)
  unfolding pending_step
  pending_step-AsksOnce s none = inl refl
  pending_step-AsksOnce s (some (s', made)) =
      if_holds AsksOnce made.created
        (λ _. result_step-AsksOnce s' made.record_found.id (c.post (call S c f id a)))
        (λ _.
          existing_step-AsksOnce s' made.record_found
            (replay_response made.record_found.lifecycle_state made.record_found.response))

  -- Some response is given, if the engine's request comes back.
  abbrev Answers : Outcome S.State → Type 0
  Answers o = (answer : Response) × (o.response ≡ some answer)

  module _ (back : c.post (call S c f id a) ≢ none) where
    result_step-Answers :
        (s : S.State) (record_id : String) (r : Option EngineResult)
        → r ≢ none
        → Answers (result_step S c f id a s record_id r)
    unfolding result_step final_step
    result_step-Answers s record_id none h = absurd (h refl)
    result_step-Answers s record_id (some r) h =
        elim (Option-cases (S.update s record_id (verdict_of c f a r).patch f.now)) [
          | inl e ↦ rw e (_, refl)
          | inr e ↦ rw e.1 (_, refl)
        ]

    retry_step-Answers :
        (s : S.State) (o : Option (S.State × TaskRecord)) → Answers (retry_step S c f id a s o)
    unfolding retry_step
    retry_step-Answers s none = (_, refl)
    retry_step-Answers s (some (s', r)) =
        result_step-Answers s' r.id (c.post (call S c f id a)) back

    existing_step-Answers :
        (s : S.State) (r : TaskRecord) (o : Option Response)
        → Answers (existing_step S c f id a s r o)
    unfolding existing_step
    existing_step-Answers s r (some answer) = (_, refl)
    existing_step-Answers s r none =
        if_holds Answers (is_failed r.lifecycle_state)
          (λ _. retry_step-Answers s (S.update s r.id (retry_patch c f a) f.now)) (λ _. (_, refl))

    pending_step-Answers :
        (s : S.State) (o : Option (S.State × Created)) → Answers (pending_step S c f id a s o)
    unfolding pending_step
    pending_step-Answers s none = (_, refl)
    pending_step-Answers s (some (s', made)) =
        if_holds Answers made.created
          (λ _. result_step-Answers s' made.record_found.id (c.post (call S c f id a)) back)
          (λ _.
            existing_step-Answers s' made.record_found
              (replay_response made.record_found.lifecycle_state made.record_found.response))

module _ (S : TaskStore) (c : Config) (f : Fresh) (headers : Headers) (body : Value)
    (s : S.State) where
  -- What may have been done about a message.
  abbrev pub Guarded : Outcome S.State → Type 0
  Guarded o =
      ((o.store ≡ s) × (o.calls ≡ []))
      ⊎ ((a : Admitted) × Passes c headers body a
          × ((o.calls ≡ []) ⊎ (o.calls ≡ engine_call a.portauth a.context (key c f a) ∷ [])))

  admission_step-Guarded :
      (d : Admission)
      → admit c headers body ≡ d
      → Guarded (admission_step S c f (request_id_of headers f) s d)
  unfolding admission_step
  admission_step-Guarded thrown h = inl (refl, refl)
  admission_step-Guarded (refused answer reason) h = inl (refl, refl)
  admission_step-Guarded (admitted a) h = inr (
    a,
    admit-Passes c headers body a h,
    pending_step-AsksOnce S c f (request_id_of headers f) a s
        (S.create_pending s (pending_record c f a) f.now),
  )

  -- Whatever the store does, the store is left as it was and the engine is not asked, or the message
  -- has passed every check and the engine is asked about it at most once.
  pub handle-Guarded : Guarded (handle_send_message S c f headers body s)
  unfolding handle_send_message
  handle-Guarded = admission_step-Guarded (admit c headers body) refl

  admission_step-Answers :
      (d : Admission)
      → d ≢ thrown
      → ((called : EngineCall) → c.post called ≢ none)
      → (answer : Response) × ((admission_step S c f (request_id_of headers f) s d).response
          ≡ some answer)
  unfolding admission_step
  admission_step-Answers thrown k back = absurd (k refl)
  admission_step-Answers (refused answer reason) k back = (_, refl)
  admission_step-Answers (admitted a) k back =
      pending_step-Answers S c f (request_id_of headers f) a
        (back (call S c f (request_id_of headers f) a)) s
        (S.create_pending s (pending_record c f a) f.now)

  -- Unless the body is null, or the request to the engine fails without a response, the caller gets
  -- a response, also where the store fails.
  pub handle-answers :
      body ≢ null
      → ((called : EngineCall) → c.post called ≢ none)
      → (answer : Response) × ((handle_send_message S c f headers body s).response ≡ some answer)
  unfolding handle_send_message
  handle-answers h back =
      admission_step-Answers (admit c headers body) (admit-ne-thrown c headers body h) back

  -- A message is admitted, or nothing is done.
  admission_step-Cases :
      (d : Admission)
      → admit c headers body ≡ d
      → (((admission_step S c f (request_id_of headers f) s d).store ≡ s)
          × ((admission_step S c f (request_id_of headers f) s d).calls ≡ []))
        ⊎ ((a : Admitted) × (admit c headers body ≡ admitted a))
  unfolding admission_step
  admission_step-Cases thrown h = inl (refl, refl)
  admission_step-Cases (refused answer reason) h = inl (refl, refl)
  admission_step-Cases (admitted a) h = inr (a, h)

  pub handle-Cases :
      (((handle_send_message S c f headers body s).store ≡ s)
        × ((handle_send_message S c f headers body s).calls ≡ []))
      ⊎ ((a : Admitted) × (admit c headers body ≡ admitted a))
  unfolding handle_send_message
  handle-Cases = admission_step-Cases (admit c headers body) refl
