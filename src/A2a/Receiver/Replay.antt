-- ===== src/A2a/Receiver/Replay.antt =====
-- Messages that come again, in `handleSendMessage` of
-- extensions/a2a/receiver-middleware/src/index.js over a store that keeps its contract.
use aiagent_portable_authori.Base.{String, true, ◌≡◌, ◌≢◌, ◌∙◌, ap, some, [], ◌∷◌, arith}
use aiagent_portable_authori.Value.{Value}
use aiagent_portable_authori.A2a.Header.{Headers}
use aiagent_portable_authori.A2a.TaskStore.{
  Lifecycle, pending, failed, Response, TaskRecord, TaskStore, IsLawful,
}
use aiagent_portable_authori.A2a.Receiver.{
  EngineCall, EngineResult, Config, Fresh, Admitted, admitted, admit, request_id_of,
}
use aiagent_portable_authori.A2a.Receiver.Verdict.{verdict_of, key}
use aiagent_portable_authori.A2a.Receiver.Handler.{
  Outcome, answered, call, with_request_id, pending_response, replay_response, replayed,
  in_progress, handle_send_message,
}
use aiagent_portable_authori.A2a.Receiver.Handler.Laws.{
  told, Handled, replays, waits, asks, Asked, IsOpen, is_settled, state_of, key_of, handle-Handled,
  SetsKey-self,
}

module _ (S : TaskStore) (L : IsLawful S) (c : Config) (f : Fresh) (headers : Headers)
    (body : Value) (s : S.State) (a : Admitted) (valid : L.IsValid s)
    (unused : L.IsUnused s f.record_id) (pass : admit c headers body ≡ admitted a) where
  abbrev id : String
  id = request_id_of headers f

  abbrev out : Outcome S.State
  out = handle_send_message S c f headers body s

  handled : Handled S L c f id a s out
  handled = handle-Handled S L c f headers body s a valid unused pass

  -- A task that is settled is answered as it was.
  pub handle-settled :
      (r : TaskRecord) (answer : Response)
      → S.get_by_idempotency_key s (key_of S L c f id a) ≡ some r
      → is_settled r.lifecycle_state ≡ true
      → r.response ≡ some answer
      → out ≡ answered S c f id a s [] (replayed r.lifecycle_state answer.status ∷ []) answer
  unfolding replay_response
  handle-settled r answer h settled given = elim handled [
    | replays r' answer' h' settled' given' e ↦ ground arith
    | waits r' h' silent free e ↦ absurd (ground arith)
    | asks free asked ↦ absurd (ground arith)
  ]

  -- A task that is pending is not asked about again.
  pub handle-pending :
      (r : TaskRecord)
      → S.get_by_idempotency_key s (key_of S L c f id a) ≡ some r
      → r.lifecycle_state ≡ pending
      → out ≡ answered S c f id a s [] (in_progress ∷ []) (pending_response r)
  handle-pending r h is_pending = elim handled [
    | replays r' answer' h' settled' given' e ↦ absurd (ground arith)
    | waits r' h' silent free e ↦ ground arith
    | asks free asked ↦ absurd (ground arith)
  ]

  -- The engine is asked about a key that is open.
  pub handle-open :
      IsOpen S L c f id a (S.get_by_idempotency_key s (key_of S L c f id a))
      → Asked S L c f id a s out
  handle-open free = elim handled [
    | replays r' answer' h' settled' given' e ↦ absurd (ground arith)
    | waits r' h' silent closed e ↦ absurd (ground arith)
    | asks free asked ↦ asked
  ]

settled_of :
    (result : EngineResult) (state : Lifecycle)
    → state ≡ state_of result
    → state_of result ≢ failed
    → is_settled state ≡ true
settled_of result state e h = ground arith

-- Two messages with one key: the receiver handles the second in the store that the first has left,
-- possibly with other options, and with an engine that answers otherwise.
module _ (S : TaskStore) (L : IsLawful S) (c c' : Config) (f f' : Fresh)
    (headers headers' : Headers) (body body' : Value) (a a' : Admitted) (s : S.State) where
  abbrev pub first : Outcome S.State
  first = handle_send_message S c f headers body s

  abbrev pub second : Outcome S.State
  second = handle_send_message S c' f' headers' body' first.store

  abbrev pub first_call : EngineCall
  first_call = call S c f (request_id_of headers f) a

  -- A message whose key was decided gets the stored answer again, under its own request id, and the
  -- engine is not asked: the hypotheses are that both messages are admitted, that the key was open
  -- and that the engine's answer to the first was an allowance or a denial.
  pub handle-again :
      (result : EngineResult)
      → L.IsValid s
      → L.IsUnused s f.record_id
      → L.IsUnused first.store f'.record_id
      → admit c headers body ≡ admitted a
      → admit c' headers' body' ≡ admitted a'
      → c'.key_text (key c' f' a') ≡ c.key_text (key c f a)
      → IsOpen S L c f
          (request_id_of headers f)
          a
          (S.get_by_idempotency_key s (c.key_text (key c f a)))
      → c.post first_call ≡ some result
      → state_of result ≢ failed
      → (first.calls ≡ first_call ∷ [])
        × (first.response
            ≡ some (with_request_id (request_id_of headers f) (verdict_of c f a result).answer))
        × (second.calls ≡ [])
        × (second.store ≡ first.store)
        × (second.response
            ≡ some (with_request_id (request_id_of headers' f') (verdict_of c f a result).answer))
  handle-again result valid unused unused' pass pass' same free back settles =
      let asked = handle-open S L c f headers body s a valid unused pass free in
      let (state, answer) = rw back at asked.reflects in
      let found : S.get_by_idempotency_key first.store (c'.key_text (key c' f' a'))
          ≡ some asked.new_record =
        ap (S.get_by_idempotency_key first.store) same
        ∙ SetsKey-self S L c f (request_id_of headers f) a s first.store asked.new_record
            asked.sets in
      let again =
        handle-settled S L c' f' headers' body' first.store a' asked.valid unused' pass'
          asked.new_record (verdict_of c f a result).answer found
          (settled_of result asked.new_record.lifecycle_state state settles) answer in
      (
        asked.once,
        asked.tells ∙ ap (told c f (request_id_of headers f) a) back,
        ap (λ o. o.calls) again,
        ap (λ o. o.store) again,
        ap (λ o. o.response) again,
      )
