-- ===== src/A2a/Receiver/Handler.antt =====
-- `handleSendMessage` of extensions/a2a/receiver-middleware/src/index.js over a task store: the
-- pending record, the replay of an earlier answer, the engine's decision and its record. Logging
-- and durations are left out; the events for the observer are kept.
pub mod Laws
use aiagent_portable_authori.Base.{
  ℕ, String, Bool, true, false, not, ◌&&◌, Option, none, some, List, [], ◌∷◌, ◌++◌, if◌then◌else◌,
  ◌==◌, leb,
}
use aiagent_portable_authori.Value.{field, nil, obj}
use aiagent_portable_authori.A2a.Header.{Headers}
use aiagent_portable_authori.A2a.TaskStore.{
  Lifecycle, pending, completed, denied, failed, Response, TaskRecord, Created, TaskStore,
}
use aiagent_portable_authori.A2a.Receiver.{
  Value, EngineCall, EngineResult, Config, Fresh, Admitted, Admission, thrown, refused, admitted,
  admit, a2a_error, response_headers, engine_call, request_id_of,
}
use aiagent_portable_authori.A2a.Receiver.Verdict.{
  Verdict, verdict_of, key, pending_record, retry_patch,
}

-- What the observer is told.
pub data Event : Type 0 where
  rejected : ℕ → String → Event
  replayed : Lifecycle → ℕ → Event
  in_progress : Event
  persistence_failed : Bool → Event
  decided : String → Lifecycle → ℕ → Event

-- `{ ...response, headers: { ...response.headers, "X-Request-Id": requestId } }`
unfoldable pub with_request_id : String → Response → Response
with_request_id id r = record r { headers = r.headers ++ (("X-Request-Id", id) ∷ []) }

-- A stored answer is given again for a task that is completed or denied.
unfoldable pub replay_response : Lifecycle → Option Response → Option Response
replay_response completed answer = answer
replay_response denied answer = answer
replay_response _ answer = none

unfoldable pub pending_response : TaskRecord → Response
pending_response r = record {
  status = 202;
  headers = response_headers;
  body = obj (field "task" r.task nil);
}

abbrev pub is_failed : Lifecycle → Bool
is_failed failed = true
is_failed _ = false

abbrev pub persistence_error : Response
persistence_error = a2a_error 500 "PORTAUTH_TASK_PERSISTENCE_FAILED" nil

-- A response of none is an exception that the handler lets through.
pub record Outcome (State : Type 0) : Type 0 where
  pub store : State
  pub calls : List EngineCall
  pub events : List Event
  pub response : Option Response

-- The decision as it is told when its record could not be written.
abbrev unrecorded : Lifecycle → Event
unrecorded denied = decided "deny" denied 500
unrecorded _ = decided "error" failed 500

module _ (S : TaskStore) (c : Config) (f : Fresh) (request_id : String) (a : Admitted) where
  abbrev pub answered : S.State → List EngineCall → List Event → Response → Outcome S.State
  answered s calls events r = record {
    store = s;
    calls = calls;
    events = events;
    response = some (with_request_id request_id r);
  }

  abbrev pub call : EngineCall
  call = engine_call a.portauth a.context (key c f a)

  -- `persistFinalResponse`, and the event of the decision.
  unfoldable pub final_step : Verdict → S.State → Option (S.State × TaskRecord) → Outcome S.State
  unfolding with_request_id a2a_error
  final_step v s (some updated) =
      answered updated.0 (call ∷ []) (decided v.decision v.state v.answer.status ∷ []) v.answer
  final_step v s none =
      answered s (call ∷ []) (persistence_failed true ∷ unrecorded v.state ∷ []) persistence_error

  unfoldable pub result_step : S.State → String → Option EngineResult → Outcome S.State
  unfolding final_step verdict_of
  result_step s id none = record { store = s; calls = call ∷ []; events = []; response = none }
  result_step s id (some r) =
      let v = verdict_of c f a r in final_step v s (S.update s id v.patch f.now)

  abbrev pub engine_step : S.State → String → Outcome S.State
  engine_step s id = result_step s id (c.post call)

  unfoldable pub retry_step : S.State → Option (S.State × TaskRecord) → Outcome S.State
  unfolding result_step engine_call with_request_id a2a_error
  retry_step s none = answered s [] (persistence_failed false ∷ []) persistence_error
  retry_step s (some updated) = engine_step updated.0 updated.1.id

  -- The record is an earlier one.
  unfoldable pub existing_step : S.State → TaskRecord → Option Response → Outcome S.State
  unfolding retry_step retry_patch pending_response with_request_id
  existing_step s r (some answer) =
      answered s [] (replayed r.lifecycle_state answer.status ∷ []) answer
  existing_step s r none =
      if is_failed r.lifecycle_state
      then retry_step s (S.update s r.id (retry_patch c f a) f.now)
      else answered s [] (in_progress ∷ []) (pending_response r)

  unfoldable pub pending_step : S.State → Option (S.State × Created) → Outcome S.State
  unfolding existing_step replay_response result_step engine_call
  pending_step s none = answered s [] (persistence_failed false ∷ []) persistence_error
  pending_step s (some (s', made)) =
      if made.created
      then engine_step s' made.record_found.id
      else existing_step s' made.record_found
          (replay_response made.record_found.lifecycle_state made.record_found.response)

module _ (S : TaskStore) (c : Config) (f : Fresh) (request_id : String) where
  unfoldable pub admission_step : S.State → Admission → Outcome S.State
  unfolding pending_step pending_record
  admission_step s thrown = record { store = s; calls = []; events = []; response = none }
  admission_step s (refused answer reason) = record {
    store = s;
    calls = [];
    events = rejected answer.status reason ∷ [];
    response = some (with_request_id request_id answer);
  }
  admission_step s (admitted a) =
      pending_step S c f request_id a s (S.create_pending s (pending_record c f a) f.now)

-- POST message:send
unfoldable pub handle_send_message :
    (S : TaskStore) → Config → Fresh → Headers → Value → S.State → Outcome S.State
unfolding admission_step admit request_id_of
handle_send_message S c f headers body s =
    admission_step S c f (request_id_of headers f) s (admit c headers body)
