-- ===== src/A2a/Receiver/History/Once.antt =====
-- What holds after any sequence of messages that `handleSendMessage` of
-- extensions/a2a/receiver-middleware/src/index.js has handled.
use mathlib.Core.Path.{subst}
use aiagent_portable_authori.Base.{
  ℕ, ◌+◌, ◌≤◌, String, Bool, true, false, ◌≡◌, refl, sym, ap, Option, none, some, [], ◌∷◌, ◌++◌,
  arith, any, str_eq, if◌then◌else◌, eq_iff, ◌&&◌, inl, inr,
}
use aiagent_portable_authori.Value.{Value}
use aiagent_portable_authori.A2a.Header.{Headers}
use aiagent_portable_authori.A2a.TaskStore.{Lifecycle, completed, TaskRecord, TaskStore, IsLawful}
use aiagent_portable_authori.A2a.Receiver.{EngineResult, Config, Fresh, Admitted, request_id_of}
use aiagent_portable_authori.A2a.Receiver.Laws.{handle-Cases}
use aiagent_portable_authori.A2a.Receiver.Checks.{admit-Passes}
use aiagent_portable_authori.A2a.Receiver.Verdict.{key}
use aiagent_portable_authori.A2a.Receiver.Handler.{Outcome, call, handle_send_message}
use aiagent_portable_authori.A2a.Receiver.Handler.Laws.{
  Handled, replays, waits, asks, Asked, Reflects, IsOpen, is_settled, state_of, handle-Handled,
}
use aiagent_portable_authori.A2a.Receiver.History.{
  Log, logged, World, after, Step, message, Reach, here, next, engine_call-key, key_of_call,
}

-- A result that settles a task: an allowance or a denial.
abbrev pub settles : Option EngineResult → ℕ
settles none = 0
settles (some r) = if is_settled (state_of r) then 1 else 0

abbrev is_completed : Lifecycle → Bool
is_completed completed = true
is_completed _ = false

abbrev pub allows : Option EngineResult → Bool
allows none = false
allows (some r) = is_completed (state_of r)

-- How often the engine has settled a task of the key.
abbrev pub decisions : String → Log → ℕ
decisions k [] = 0
decisions k (entry ∷ log) = (if str_eq entry.0 k then settles entry.1 else 0) + decisions k log

-- The engine has allowed a task of the key.
abbrev pub was_allowed : String → Log → Bool
was_allowed k log = any (λ entry. str_eq entry.0 k && allows entry.1) log

abbrev weight : Option TaskRecord → ℕ
weight none = 0
weight (some r) = if is_settled r.lifecycle_state then 1 else 0

abbrev completed_in : Option TaskRecord → Bool
completed_in none = false
completed_in (some r) = is_completed r.lifecycle_state

module _ (S : TaskStore) (L : IsLawful S) where
  -- The log and the store agree.
  pub record IsFaithful (w : World S L) : Type 0 where
    pub valid : L.IsValid w.store
    pub counted :
        (key : String) → decisions key w.log ≤ weight (S.get_by_idempotency_key w.store key)
    pub allowed :
        (key : String)
        → completed_in (S.get_by_idempotency_key w.store key) ≡ true
        → was_allowed key w.log ≡ true

  weight-Reflects :
      (c : Config) (f : Fresh) (a : Admitted) (o : Option EngineResult) (r : TaskRecord)
      → Reflects c f a o r
      → (weight (some r) ≡ settles o) × (completed_in (some r) ≡ allows o)
  weight-Reflects c f a none r (e, _) = rw e (refl, refl)
  weight-Reflects c f a (some result) r (e, _) = rw e (refl, refl)

  weight-IsOpen :
      (c : Config) (f : Fresh) (id : String) (a : Admitted) (o : Option TaskRecord)
      → IsOpen S L c f id a o
      → weight o ≡ 0
  weight-IsOpen c f id a none h = refl
  weight-IsOpen c f id a (some r) h = rw h refl

  Asked-IsFaithful :
      (w : World S L) (c : Config) (f : Fresh) (id : String) (a : Admitted) (o : Outcome S.State)
      → IsFaithful w
      → key_of_call c (call S c f id a) ≡ c.key_text (key c f a)
      → IsOpen S L c f id a (S.get_by_idempotency_key w.store (c.key_text (key c f a)))
      → Asked S L c f id a w.store o
      → IsFaithful (record { store = o.store; log = logged c o.calls ++ w.log })
  Asked-IsFaithful w c f id a o faithful same free asked =
      let x = call S c f id a in
      let k = c.key_text (key c f a) in
      let (weighs, completes) = weight-Reflects c f a (c.post x) asked.new_record asked.reflects in
      let before = weight-IsOpen c f id a (S.get_by_idempotency_key w.store k) free in
      rw asked.once (
        rw same (record {
          valid = asked.valid;
          counted =
              λ j. ground (arith, faithful.counted j, faithful.counted k, asked.sets j, eq_iff k j);
          allowed = λ j h. ground (arith, faithful.allowed j, asked.sets j, eq_iff k j);
        }))

  same-IsFaithful :
      (w : World S L) (c : Config) (o : Outcome S.State)
      → IsFaithful w
      → o.store ≡ w.store
      → o.calls ≡ []
      → IsFaithful (record { store = o.store; log = logged c o.calls ++ w.log })
  same-IsFaithful w c o faithful same silent = rw same (rw silent faithful)

  Handled-IsFaithful :
      (w : World S L) (c : Config) (f : Fresh) (id : String) (a : Admitted) (o : Outcome S.State)
      → IsFaithful w
      → key_of_call c (call S c f id a) ≡ c.key_text (key c f a)
      → Handled S L c f id a w.store o
      → IsFaithful (record { store = o.store; log = logged c o.calls ++ w.log })
  Handled-IsFaithful w c f id a o faithful same (replays r answer h settled given e) =
      same-IsFaithful w c o faithful (ap (λ x. x.store) e) (ap (λ x. x.calls) e)
  Handled-IsFaithful w c f id a o faithful same (waits r h silent free e) =
      same-IsFaithful w c o faithful (ap (λ x. x.store) e) (ap (λ x. x.calls) e)
  Handled-IsFaithful w c f id a o faithful same (asks free asked) =
      Asked-IsFaithful w c f id a o faithful same free asked

  after-IsFaithful :
      (w : World S L) (c : Config) (f : Fresh) (headers : Headers) (body : Value)
      → IsFaithful w
      → L.IsUnused w.store f.record_id
      → IsFaithful (after S L c f headers body w)
  after-IsFaithful w c f headers body faithful unused =
      elim (handle-Cases S c f headers body w.store) [
        | inl h ↦
            same-IsFaithful w c (handle_send_message S c f headers body w.store) faithful h.0 h.1
        | inr (a, h) ↦
            Handled-IsFaithful w c f (request_id_of headers f) a
              (handle_send_message S c f headers body w.store) faithful
              (engine_call-key S c f (request_id_of headers f) headers body a
                (admit-Passes c headers body a h))
              (handle-Handled S L c f headers body w.store a faithful.valid unused h)
      ]

  Step-IsFaithful : {w w' : World S L} → Step S L w w' → IsFaithful w → IsFaithful w'
  Step-IsFaithful {w} (message c f headers body unused e) faithful =
      subst IsFaithful (sym e) (after-IsFaithful w c f headers body faithful unused)

  Reach-IsFaithful : {w w' : World S L} → IsFaithful w → Reach S L w w' → IsFaithful w'
  Reach-IsFaithful faithful here = faithful
  Reach-IsFaithful faithful (next r step) = Step-IsFaithful step (Reach-IsFaithful faithful r)

  initial-IsFaithful : IsFaithful (record { store = L.initial; log = [] })
  initial-IsFaithful = record {
    valid = L.initial_valid;
    counted = λ k. rw (L.initial_empty k) (omega arith);
    allowed = λ k h. absurd (ground (arith, L.initial_empty k));
  }

  -- From an empty store, after any messages in a row, with whatever results of the engine,
  -- no key was settled by the engine more than once.
  pub decisions-le-one :
      (w : World S L) (k : String)
      → Reach S L (record { store = L.initial; log = [] }) w
      → decisions k w.log ≤ 1
  decisions-le-one w k r =
      let counted = (Reach-IsFaithful initial-IsFaithful r).counted k in ground (arith, counted)

  -- From an empty store, after any messages in a row, a record says that its task is
  -- completed only if the engine has answered a request with its key by an allowance.
  pub completed-was_allowed :
      (w : World S L) (k : String) (r : TaskRecord)
      → Reach S L (record { store = L.initial; log = [] }) w
      → S.get_by_idempotency_key w.store k ≡ some r
      → r.lifecycle_state ≡ completed
      → was_allowed k w.log ≡ true
  completed-was_allowed w k r reach h e =
      (Reach-IsFaithful initial-IsFaithful reach).allowed k (rw h (rw e refl))
