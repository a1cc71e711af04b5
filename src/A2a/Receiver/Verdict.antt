-- ===== src/A2a/Receiver/Verdict.antt =====
-- `handleSendMessage` of extensions/a2a/receiver-middleware/src/index.js: the record of a task, what
-- the engine's result makes of it, and the answer.
use aiagent_portable_authori.Base.{String, not, ◌&&◌, Option, none, some, if◌then◌else◌, ◌==◌, leb}
use aiagent_portable_authori.Value.{
  Value, nil, field, undefined, null, str, obj, get, member, is_truthy, is_text, or_value,
  if_truthy, number_text,
}
use aiagent_portable_authori.A2a.Status.{
  map_engine_decision_to_a2a_error, status_message, task_of, build_completed_task,
}
use aiagent_portable_authori.A2a.TaskStore.{
  Lifecycle, pending, completed, denied, failed, Response, TaskRecord, Patch,
}
use aiagent_portable_authori.A2a.Receiver.{
  EngineResult, Config, Fresh, Admitted, a2a_error, response_headers,
  resolve_receiver_idempotency_key,
}

-- The task of a record that is not completed.
unfoldable pub build_lifecycle_task :
    Value → Value → String → String → Value → Value → Value → String → Value
unfolding task_of status_message is_truthy
build_lifecycle_task task_id context_id state decision key audit_record_id engine_error message_id =
    let metadata = field "portauthDecision" (str decision) (
      field "idempotencyKey" key
        (if_truthy "auditRecordId" audit_record_id (if_truthy "engineError" engine_error nil))) in
    task_of task_id context_id state (status_message task_id context_id message_id metadata)
      metadata

-- What is recorded of a decision, and what is answered.
pub record Verdict : Type 0 where
  pub patch : Patch
  pub answer : Response
  pub decision : String
  pub state : Lifecycle

module _ (c : Config) (f : Fresh) (a : Admitted) where
  abbrev pub key : Value
  key = resolve_receiver_idempotency_key a.portauth a.message

  abbrev pub task_id : Value
  task_id = or_value (member "taskId" a.message) (str f.task_id)

  abbrev pub context_id : Value
  context_id = or_value (member "contextId" a.message) (str f.context_id)

  abbrev pub pending_task : Value
  pending_task =
      build_lifecycle_task task_id context_id "TASK_STATE_SUBMITTED" "pending" key undefined
        undefined f.message_id

  -- The record of a task that the engine has not been asked about.
  unfoldable pub pending_record : TaskRecord
  unfolding build_lifecycle_task resolve_receiver_idempotency_key
  pending_record = record {
    id = f.record_id;
    task_id = task_id;
    idempotency_key = c.key_text key;
    lifecycle_state = pending;
    task = pending_task;
    response = none;
    request_context = a.context;
    presenter_id = a.portauth.presenter_id;
    vc_format = a.portauth.vc_format;
    audit_record_id = null;
    error_reason = null;
    created_at = "";
    updated_at = "";
  }

  -- The patch with which a failed task is tried again.
  unfoldable pub retry_patch : Patch
  unfolding build_lifecycle_task resolve_receiver_idempotency_key
  retry_patch = record {
    task_id = some task_id;
    lifecycle_state = some pending;
    task = some pending_task;
    response = some none;
    request_context = some a.context;
    presenter_id = some a.portauth.presenter_id;
    vc_format = some a.portauth.vc_format;
    audit_record_id = some null;
    error_reason = some null;
  }

  abbrev final_patch : Lifecycle → Value → Response → Option Value → Option Value → Patch
  final_patch state task answer audit_record_id error_reason = record {
    task_id = some task_id;
    lifecycle_state = some state;
    task = some task;
    response = some (some answer);
    request_context = none;
    presenter_id = none;
    vc_format = none;
    audit_record_id = audit_record_id;
    error_reason = error_reason;
  }

  -- No decision came back.
  unfoldable pub failed_verdict : EngineResult → Verdict
  unfolding build_lifecycle_task a2a_error number_text resolve_receiver_idempotency_key
  failed_verdict r =
      let answer =
        a2a_error (if leb 500 r.status then 503 else 400) "PORTAUTH_ENGINE_UNAVAILABLE"
          (field "engineStatus" (str (number_text r.status)) nil) in
      let task =
        build_lifecycle_task task_id context_id "TASK_STATE_FAILED" "error" key undefined undefined
          f.final_message_id in
      record {
        patch = final_patch failed task answer none (some (str "PORTAUTH_ENGINE_UNAVAILABLE"));
        answer = answer;
        decision = "error";
        state = failed;
      }

  unfoldable pub denied_verdict : EngineResult → Verdict
  unfolding build_lifecycle_task resolve_receiver_idempotency_key is_truthy get
      map_engine_decision_to_a2a_error
  denied_verdict r =
      let mapped = map_engine_decision_to_a2a_error r.body (if r.status == 422 then 401 else 403) in
      let answer : Response = record {
        status = mapped.0;
        headers = response_headers;
        body = mapped.1;
      } in
      let error = or_value (member "error" r.body) (str "authorization_denied") in
      let task =
        build_lifecycle_task task_id context_id "TASK_STATE_REJECTED" "deny" key
          (member "auditRecordId" r.body) error f.final_message_id in
      record {
        patch = final_patch denied task answer (some (member "auditRecordId" r.body)) (some error);
        answer = answer;
        decision = "deny";
        state = denied;
      }

  unfoldable pub completed_verdict : EngineResult → Verdict
  unfolding build_completed_task resolve_receiver_idempotency_key get
  completed_verdict r =
      let task =
        build_completed_task task_id context_id f.final_message_id (member "auditRecordId" r.body)
          (field "idempotencyKey" key nil) in
      let answer : Response = record {
        status = 200;
        headers = response_headers;
        body = obj (field "task" task nil);
      } in
      record {
        patch = final_patch completed task answer (some (member "auditRecordId" r.body)) none;
        answer = answer;
        decision = "allow";
        state = completed;
      }

  unfoldable pub verdict_of : EngineResult → Verdict
  unfolding failed_verdict denied_verdict completed_verdict is_truthy get
  verdict_of r =
      if not r.ok && not (is_truthy (member "decision" r.body))
      then failed_verdict r
      else if is_text "allow" (member "decision" r.body)
      then completed_verdict r
      else denied_verdict r
