-- ===== src/A2a/Receiver/History.antt =====
-- Sequences of messages that `handleSendMessage` of
-- extensions/a2a/receiver-middleware/src/index.js handles one after the other over a store that
-- keeps its contract, and the log of what the engine was asked in them.
pub mod Once
pub mod Stuck
use aiagent_portable_authori.Base.{
  ℕ, ◌+◌, ◌≤◌, String, Bool, true, false, ◌≡◌, ◌≢◌, refl, ◌∙◌, sym, ap, Option, none, some, List,
  [], ◌∷◌, ◌++◌, arith, map, any, str_eq, if◌then◌else◌, eq_iff, ◌&&◌, inl, inr,
}
use aiagent_portable_authori.Value.{Value, member, is_truthy, is_filled, get, or_value}
use aiagent_portable_authori.A2a.Header.{Headers}
use aiagent_portable_authori.A2a.Message.{message_errors, validate_a2a_send_message_request}
use aiagent_portable_authori.A2a.TaskStore.{
  Lifecycle, pending, completed, denied, failed, Response, TaskRecord, TaskStore, IsLawful, SetsKey,
}
use aiagent_portable_authori.A2a.Receiver.{
  PortAuth, resolve_receiver_idempotency_key, EngineCall, EngineResult, Config, Fresh, Admitted,
  Admission, admitted, admit, request_id_of, build_engine_request, engine_call,
}
use aiagent_portable_authori.A2a.Receiver.Checks.{Passes, admit-Passes}
use aiagent_portable_authori.A2a.Receiver.Verdict.{key}
use aiagent_portable_authori.A2a.Receiver.Handler.{Outcome, call, handle_send_message}
use aiagent_portable_authori.A2a.Receiver.Handler.Laws.{
  Handled, replays, waits, asks, Asked, IsOpen, is_settled, state_of, handle-Handled,
}

-- The key that a request to the engine carries.
abbrev pub key_of_call : Config → EngineCall → String
key_of_call c x = c.key_text (member "idempotencyKey" x.body)

message_id_filled :
    (message : Value) → message_errors message ≡ [] → is_truthy (member "messageId" message) ≡ true
unfolding message_errors is_truthy
message_id_filled message h = ground arith

filled_message_id :
    (body : Value)
    → validate_a2a_send_message_request body ≡ some []
    → is_truthy (member "messageId" (member "message" body)) ≡ true
unfolding validate_a2a_send_message_request
filled_message_id body h = message_id_filled (member "message" body) (ground arith)

key_facts :
    (portauth : PortAuth) (message : Value)
    → is_truthy (member "messageId" message) ≡ true
    → (is_truthy (resolve_receiver_idempotency_key portauth message) ≡ true)
      × (or_value portauth.idempotency_key (resolve_receiver_idempotency_key portauth message)
          ≡ resolve_receiver_idempotency_key portauth message)
unfolding resolve_receiver_idempotency_key
key_facts portauth message h = ground arith

member-build_engine_request :
    (portauth : PortAuth) (ctx sent : Value)
    → is_truthy sent ≡ true
    → or_value portauth.idempotency_key sent ≡ sent
    → member "idempotencyKey" (build_engine_request portauth ctx sent) ≡ sent
unfolding build_engine_request get
member-build_engine_request portauth ctx sent t h = ground arith

-- The engine is given the key under which the task is stored.
pub engine_call-key :
    (S : TaskStore) (c : Config) (f : Fresh) (id : String) (headers : Headers) (body : Value)
    (a : Admitted)
    → Passes c headers body a
    → key_of_call c (call S c f id a) ≡ c.key_text (key c f a)
unfolding engine_call
engine_call-key S c f id headers body a p =
    let filled : is_truthy (member "messageId" a.message) ≡ true =
      ap (λ m. is_truthy (member "messageId" m)) p.message ∙ filled_message_id body p.valid in
    let (t, h) = key_facts a.portauth a.message filled in
    ap c.key_text (member-build_engine_request a.portauth a.context (key c f a) t h)

-- What the engine was asked under which key, and its results, the latest first.
abbrev pub Log : Type 0
Log = List (String × Option EngineResult)

abbrev pub logged : Config → List EngineCall → Log
logged c calls = map (λ x. (key_of_call c x, c.post x)) calls

module _ (S : TaskStore) (L : IsLawful S) where
  pub record World : Type 0 where
    pub store : S.State
    pub log : Log

  abbrev pub after : Config → Fresh → Headers → Value → World → World
  after c f headers body w =
      let o = handle_send_message S c f headers body w.store in
      record { store = o.store; log = logged c o.calls ++ w.log }

  -- A message comes in, of whatever content, with whatever options, and the engine gives whatever
  -- result; only the id that is drawn for its record is not in use.
  pub data Step (w w' : World) : Type 0 where
    message :
        (c : Config) (f : Fresh) (headers : Headers) (body : Value)
        → L.IsUnused w.store f.record_id
        → w' ≡ after c f headers body w
        → Step w w'

  pub data Reach (w : World) : World → Type 0 where
    here : Reach w w
    next : {u v : World} → Reach w u → Step u v → Reach w v
