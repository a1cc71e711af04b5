-- ===== src/A2a/Receiver/History/Stuck.antt =====
-- What follows when the request of `handleSendMessage` to the engine, in
-- extensions/a2a/receiver-middleware/src/index.js, fails without a response.
use mathlib.Core.Path.{subst}
use aiagent_portable_authori.Base.{
  String, Bool, false, ◌≡◌, refl, sym, ◌∙◌, ap, none, some, [], ◌++◌, arith, any, str_eq, eq_iff,
  inl, inr, Bool-cases,
}
use aiagent_portable_authori.Value.{Value}
use aiagent_portable_authori.A2a.Header.{Headers}
use aiagent_portable_authori.A2a.TaskStore.{pending, Response, TaskRecord, TaskStore, IsLawful}
use aiagent_portable_authori.A2a.Receiver.{Config, Fresh, Admitted, admitted, admit, request_id_of}
use aiagent_portable_authori.A2a.Receiver.Laws.{handle-Cases}
use aiagent_portable_authori.A2a.Receiver.Checks.{admit-Passes}
use aiagent_portable_authori.A2a.Receiver.Verdict.{key}
use aiagent_portable_authori.A2a.Receiver.Handler.{
  Outcome, call, with_request_id, pending_response, handle_send_message,
}
use aiagent_portable_authori.A2a.Receiver.Handler.Laws.{
  told, Handled, replays, waits, asks, Asked, IsOpen, handle-Handled, SetsKey-self,
}
use aiagent_portable_authori.A2a.Receiver.Replay.{handle-open, handle-pending}
use aiagent_portable_authori.A2a.Receiver.History.{
  Log, logged, World, Step, message, Reach, here, next, engine_call-key, key_of_call,
}

-- The engine was asked about a task of the key.
abbrev pub asked_about : String → Log → Bool
asked_about k log = any (λ entry. str_eq entry.0 k) log

module _ (S : TaskStore) (L : IsLawful S) (k : String) where
  -- The task of the key is pending, and the engine was not asked about it.
  pub record IsStuck (w : World S L) : Type 0 where
    pub valid : L.IsValid w.store
    pub kept : TaskRecord
    pub found : S.get_by_idempotency_key w.store k ≡ some kept
    pub waiting : kept.lifecycle_state ≡ pending
    pub silent : asked_about k w.log ≡ false

  same-IsStuck :
      (w : World S L) (c : Config) (o : Outcome S.State)
      → IsStuck w
      → o.store ≡ w.store
      → o.calls ≡ []
      → IsStuck (record { store = o.store; log = logged c o.calls ++ w.log })
  same-IsStuck w c o stuck same silent = rw same (rw silent stuck)

  open-apart :
      (w : World S L) (c : Config) (f : Fresh) (id : String) (a : Admitted)
      → IsStuck w
      → IsOpen S L c f id a (S.get_by_idempotency_key w.store (c.key_text (key c f a)))
      → str_eq (c.key_text (key c f a)) k ≡ false
  open-apart w c f id a stuck free = elim (Bool-cases (str_eq (c.key_text (key c f a)) k)) [
    | inr apart ↦ apart
    | inl same ↦
        let at_key : IsOpen S L c f id a (some stuck.kept) =
          subst (IsOpen S L c f id a)
            (ap (S.get_by_idempotency_key w.store) ((eq_iff (c.key_text (key c f a)) k).0 same)
              ∙ stuck.found)
            free in
        absurd (ground (arith, stuck.waiting))
  ]

  Asked-IsStuck :
      (w : World S L) (c : Config) (f : Fresh) (id : String) (a : Admitted) (o : Outcome S.State)
      → IsStuck w
      → key_of_call c (call S c f id a) ≡ c.key_text (key c f a)
      → IsOpen S L c f id a (S.get_by_idempotency_key w.store (c.key_text (key c f a)))
      → Asked S L c f id a w.store o
      → IsStuck (record { store = o.store; log = logged c o.calls ++ w.log })
  Asked-IsStuck w c f id a o stuck same free asked =
      let apart = open-apart w c f id a stuck free in
      rw asked.once (
        rw same (record {
          valid = asked.valid;
          kept = stuck.kept;
          found = asked.sets k ∙ ground (arith, stuck.found);
          waiting = stuck.waiting;
          silent = ground (arith, stuck.silent);
        }))

  Handled-IsStuck :
      (w : World S L) (c : Config) (f : Fresh) (id : String) (a : Admitted) (o : Outcome S.State)
      → IsStuck w
      → key_of_call c (call S c f id a) ≡ c.key_text (key c f a)
      → Handled S L c f id a w.store o
      → IsStuck (record { store = o.store; log = logged c o.calls ++ w.log })
  Handled-IsStuck w c f id a o stuck same (replays r answer h settled given e) =
      same-IsStuck w c o stuck (ap (λ x. x.store) e) (ap (λ x. x.calls) e)
  Handled-IsStuck w c f id a o stuck same (waits r h silent free e) =
      same-IsStuck w c o stuck (ap (λ x. x.store) e) (ap (λ x. x.calls) e)
  Handled-IsStuck w c f id a o stuck same (asks free asked) =
      Asked-IsStuck w c f id a o stuck same free asked

  Step-IsStuck : {w w' : World S L} → Step S L w w' → IsStuck w → IsStuck w'
  Step-IsStuck {w} (message c f headers body unused e) stuck =
      let o = handle_send_message S c f headers body w.store in
      subst IsStuck (sym e) (elim (handle-Cases S c f headers body w.store) [
        | inl h ↦ same-IsStuck w c o stuck h.0 h.1
        | inr (a, h) ↦
            Handled-IsStuck w c f (request_id_of headers f) a o stuck
              (engine_call-key S c f (request_id_of headers f) headers body a
                (admit-Passes c headers body a h))
              (handle-Handled S L c f headers body w.store a stuck.valid unused h)
      ])

  Reach-IsStuck : {w w' : World S L} → IsStuck w → Reach S L w w' → IsStuck w'
  Reach-IsStuck stuck here = stuck
  Reach-IsStuck stuck (next r step) = Step-IsStuck step (Reach-IsStuck stuck r)

-- A first message, and a later one with its key, with whatever options.
module _ (S : TaskStore) (L : IsLawful S) (c c' : Config) (f f' : Fresh)
    (headers headers' : Headers) (body body' : Value) (a a' : Admitted) (s : S.State) where
  abbrev pub task_key : String
  task_key = c.key_text (key c f a)

  -- The world that the first message leaves, with an empty log.
  abbrev pub left : World S L
  left = record { store = (handle_send_message S c f headers body s).store; log = [] }

  -- Where a message is admitted whose key is open, and the request to the engine fails without a
  -- response, there is no answer; and after any messages in a row that follow, with whatever keys and
  -- results of the engine, the record of the key is still pending and the engine was not asked about it
  -- again, and a message with this key that is admitted then is answered 202, without asking the engine
  -- or changing the store.
  pub handle-stuck :
      (w : World S L)
      → L.IsValid s
      → L.IsUnused s f.record_id
      → admit c headers body ≡ admitted a
      → IsOpen S L c f (request_id_of headers f) a (S.get_by_idempotency_key s task_key)
      → c.post (call S c f (request_id_of headers f) a) ≡ none
      → Reach S L left w
      → L.IsUnused w.store f'.record_id
      → admit c' headers' body' ≡ admitted a'
      → c'.key_text (key c' f' a') ≡ task_key
      → ((handle_send_message S c f headers body s).response ≡ none)
        × ((r : TaskRecord) × (S.get_by_idempotency_key w.store task_key ≡ some r)
            × (r.lifecycle_state ≡ pending))
        × (asked_about task_key w.log ≡ false)
        × ((handle_send_message S c' f' headers' body' w.store).calls ≡ [])
        × ((handle_send_message S c' f' headers' body' w.store).store ≡ w.store)
        × ((answer : Response) × ((handle_send_message S c' f' headers' body' w.store).response
              ≡ some answer)
            × (answer.status ≡ 202))
  unfolding with_request_id pending_response
  handle-stuck w valid unused pass free back reach unused' pass' same =
      let id = request_id_of headers f in
      let asked = handle-open S L c f headers body s a valid unused pass free in
      let (state, _) = rw back at asked.reflects in
      let start : IsStuck S L task_key left = record {
        valid = asked.valid;
        kept = asked.new_record;
        found = SetsKey-self S L c f id a s left.store asked.new_record asked.sets;
        waiting = state;
        silent = refl;
      } in
      let stuck = Reach-IsStuck S L task_key start reach in
      let again =
        handle-pending S L c' f' headers' body' w.store a' stuck.valid unused' pass' stuck.kept
          (ap (S.get_by_idempotency_key w.store) same ∙ stuck.found) stuck.waiting in
      (
        asked.tells ∙ ap (told c f id a) back,
        (stuck.kept, stuck.found, stuck.waiting),
        stuck.silent,
        ap (λ o. o.calls) again,
        ap (λ o. o.store) again,
        (_, ap (λ o. o.response) again, refl),
      )
