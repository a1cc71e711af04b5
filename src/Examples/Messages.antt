-- ===== src/Examples/Messages.antt =====
-- Runs of the A2A receiver on its store in memory, and of what the SDK sends it.
use aiagent_portable_authori.Base.{◌≤◌, String, true, false, ◌≡◌, ◌≢◌, refl, none, some, [], ◌∷◌}
use aiagent_portable_authori.Base.Assoc.{lookup}
use aiagent_portable_authori.Value.{
  Value, Fields, nil, field, undefined, null, str, arr, obj, get, member, is_truthy, is_blank,
}
use aiagent_portable_authori.A2a.{extension_uri, vc_formats}
use aiagent_portable_authori.A2a.Header.{Headers, plain, one}
use aiagent_portable_authori.A2a.Metadata.{
  Parts, build_port_auth_metadata, extract_port_auth_metadata,
}
use aiagent_portable_authori.A2a.Metadata.Laws.{meant}
use aiagent_portable_authori.A2a.Message.{Draft, build_a2a_send_message_request}
use aiagent_portable_authori.A2a.Message.Laws.{extract-build-message}
use aiagent_portable_authori.A2a.TaskStore.{
  failed, pending, Response, TaskRecord, IsLawful, completed,
}
use aiagent_portable_authori.A2a.TaskStore.Memory.{
  dated, patch_record, MemoryStore, memory_store, create_pending, update, get_by_idempotency_key,
}
use aiagent_portable_authori.A2a.TaskStore.Memory.Laws.{memory_laws, empty}
use aiagent_portable_authori.A2a.TaskStore.Postgres.{postgres_store}
use aiagent_portable_authori.A2a.TaskStore.Postgres.Laws.{postgres_store-IsLawful}
use aiagent_portable_authori.A2a.Receiver.{
  EngineCall, EngineResult, fixed, Config, Fresh, Admitted, admitted, admit, request_id_of,
}
use aiagent_portable_authori.A2a.Receiver.Verdict.{pending_record, verdict_of, key}
use aiagent_portable_authori.A2a.Receiver.Handler.{with_request_id, handle_send_message}
use aiagent_portable_authori.A2a.Receiver.Handler.Laws.{IsOpen, state_of}
use aiagent_portable_authori.A2a.Receiver.Laws.{Guarded, handle-Guarded, handle-answers}
use aiagent_portable_authori.A2a.Receiver.Replay.{first, first_call, handle-again}
use aiagent_portable_authori.A2a.Receiver.History.Stuck.{asked_about, left, handle-stuck}
use aiagent_portable_authori.A2a.Receiver.History.{World, after, message, Reach, here, next}
use aiagent_portable_authori.A2a.Receiver.History.Once.{
  decisions, was_allowed, decisions-le-one, completed-was_allowed,
}

abbrev parts : Parts
parts = record {
  credential = str "header.payload.signature";
  vc = undefined;
  vc_format = undefined;
  presenter_id = str "agent-b";
  proof_of_possession = undefined;
  idempotency_key = undefined;
  delegation_chain = arr (field "0" (str "root.jwt.sig") nil);
}

abbrev metadata : Fields
metadata =
    field "https://kyndryl-open-source.github.io/aiagent-portable-authorization/a2a/v1/vc"
      (str "header.payload.signature")
      (field "https://kyndryl-open-source.github.io/aiagent-portable-authorization/a2a/v1/vcFormat"
        (str "tier1-jwt")
        (field
          "https://kyndryl-open-source.github.io/aiagent-portable-authorization/a2a/v1/presenterId"
          (str "agent-b")
          (field
            "https://kyndryl-open-source.github.io/aiagent-portable-authorization/a2a/v1/delegationChain"
            (arr (field "0" (str "root.jwt.sig") nil)) nil)))

abbrev draft : Draft
draft = record {
  text = some "Pay the bill.";
  payload = undefined;
  metadata = obj metadata;
  message_id = "message-1";
  context_id = undefined;
  task_id = undefined;
  role = str "ROLE_USER";
  extensions = arr (field "0" (str extension_uri) nil);
  configuration = obj nil;
}

abbrev message_value : Value
message_value = obj (
    field "messageId" (str "message-1") (
      field "role" (str "ROLE_USER") (
        field "parts" (arr (field "0" (obj (field "text" (str "Pay the bill.") nil)) nil)) (
          field "extensions" (arr (field "0" (str extension_uri) nil))
            (field "metadata" (obj metadata) nil)))))

abbrev body : Value
body = obj (field "message" message_value (field "configuration" (obj nil) nil))

metadata_built : build_port_auth_metadata parts ≡ some metadata
unfolding build_port_auth_metadata is_truthy
metadata_built = refl

body_built : build_a2a_send_message_request (record draft { metadata = obj metadata }) ≡ some body
unfolding build_a2a_send_message_request is_truthy
body_built = refl

extract-build-message_example :
    extract_port_auth_metadata (member "message" body) ≡ some (meant parts)
extract-build-message_example =
    extract-build-message parts metadata draft body metadata_built refl body_built

abbrev allowing : EngineResult
allowing = record { ok = true; status = 200; body = obj (field "decision" (str "allow") nil) }

abbrev text_key : Value → String
text_key (str s) = s
text_key _ = ""

abbrev config : Config
config = record {
  required = true;
  accepted_profiles = vc_formats;
  map_request_context = λ message body portauth.
      some (obj (field "action" (str "pay") (field "resource" (str "bill") nil)));
  require_proof_of_possession = fixed false;
  post = λ x. some allowing;
  key_text = text_key;
  violations_text = λ violations. "";
}

abbrev failing : Config
failing = record config { post = λ x. none }

abbrev fresh : Fresh
fresh = record {
  request_id = "request-1";
  task_id = "task-1";
  record_id = "record-1";
  context_id = "context-1";
  message_id = "message-a";
  final_message_id = "message-b";
  now = "2026-01-01T00:00:00.000Z";
}

abbrev fresh_again : Fresh
fresh_again = record fresh { request_id = "request-2"; record_id = "record-2" }

abbrev headers : Headers
headers = plain (("A2A-Extensions", one extension_uri) ∷ [])

abbrev bill : Admitted
unfolding is_truthy
bill = record {
  message = message_value;
  portauth = meant parts;
  context = obj (field "action" (str "pay") (field "resource" (str "bill") nil));
}

pass : admit config headers body ≡ admitted bill
unfolding admit is_truthy
pass = refl

pass_failing : admit failing headers body ≡ admitted bill
unfolding admit is_truthy
pass_failing = refl

abbrev initial : World memory_store memory_laws
initial = record { store = memory_laws.initial; log = [] }

unused : (lookup "record-1" empty.records_by_id ≡ none) × (is_blank "record-1" ≡ false)
unfolding lookup
unused = (refl, refl)

is_free :
    IsOpen memory_store memory_laws config fresh
      (request_id_of headers fresh)
      bill
      (get_by_idempotency_key empty (config.key_text (key config fresh bill)))
unfolding get_by_idempotency_key
is_free = tt

abbrev first_out : Config → MemoryStore
first_out c =
    (first memory_store memory_laws c c fresh fresh_again headers headers body body bill bill
      empty).store

unused_again :
    (lookup "record-2" (first_out config).records_by_id ≡ none) × (is_blank "record-2" ≡ false)
unfolding handle_send_message is_truthy create_pending update
unused_again = (refl, refl)

unused_failing :
    (lookup "record-2" (first_out failing).records_by_id ≡ none) × (is_blank "record-2" ≡ false)
unfolding handle_send_message is_truthy create_pending
unused_failing = (refl, refl)

settles : state_of allowing ≢ failed
unfolding is_truthy get
settles e = cc

handle-Guarded_example :
    Guarded memory_store config fresh headers body empty
      (handle_send_message memory_store config fresh headers body empty)
handle-Guarded_example = handle-Guarded memory_store config fresh headers body empty

not_null : body ≢ null
not_null e = cc

comes_back : (x : EngineCall) → config.post x ≢ none
comes_back x e = cc

handle-answers_example :
    (answer : Response) × ((handle_send_message memory_store config fresh headers body
        empty).response
      ≡ some answer)
handle-answers_example =
    handle-answers memory_store config fresh headers body empty not_null comes_back

abbrev after_one : World memory_store memory_laws
after_one = after memory_store memory_laws config fresh headers body initial

one_message : Reach memory_store memory_laws initial after_one
unfolding memory_laws
one_message = next here (message config fresh headers body unused refl)

decisions-le-one_example : decisions "message-1" after_one.log ≤ 1
decisions-le-one_example =
    decisions-le-one memory_store memory_laws after_one "message-1" one_message

abbrev finished : TaskRecord
finished =
    patch_record (dated (pending_record config fresh bill) fresh.now)
      (verdict_of config fresh bill allowing).patch fresh.now

finished_found : get_by_idempotency_key after_one.store "message-1" ≡ some finished
unfolding handle_send_message is_truthy create_pending update memory_laws get_by_idempotency_key
finished_found = refl

finished_completed : finished.lifecycle_state ≡ completed
unfolding patch_record verdict_of is_truthy
finished_completed = refl

completed-was_allowed_example : was_allowed "message-1" after_one.log ≡ true
completed-was_allowed_example =
    completed-was_allowed memory_store memory_laws after_one "message-1" finished one_message
      finished_found finished_completed

abbrev id_again : String
id_again = "request-2"

handle-again_example :
    ((handle_send_message memory_store config fresh headers body empty).calls
      ≡ first_call memory_store memory_laws config config fresh fresh_again headers headers body
          body bill bill empty
        ∷ [])
    × ((handle_send_message memory_store config fresh headers body empty).response
        ≡ some (
            with_request_id
              (request_id_of headers fresh)
              (verdict_of config fresh bill allowing).answer))
    × ((handle_send_message memory_store config fresh_again headers body (first_out config)).calls
        ≡ [])
    × ((handle_send_message memory_store config fresh_again headers body (first_out config)).store
        ≡ first_out config)
    × ((handle_send_message memory_store config fresh_again headers body
          (first_out config)).response
        ≡ some (
            with_request_id
              (request_id_of headers fresh_again)
              (verdict_of config fresh bill allowing).answer))
unfolding memory_laws
handle-again_example =
    handle-again memory_store memory_laws config config fresh fresh_again headers headers body body
      bill bill empty allowing memory_laws.initial_valid unused unused_again pass pass refl is_free
      refl settles

abbrev stuck_world : World memory_store memory_laws
stuck_world =
    left memory_store memory_laws failing config fresh fresh_again headers headers body body bill
      bill empty

-- The message comes a second time, and is told to wait.
abbrev stuck_after : World memory_store memory_laws
stuck_after = after memory_store memory_laws config fresh_again headers body stuck_world

stuck_reached : Reach memory_store memory_laws stuck_world stuck_after
unfolding memory_laws
stuck_reached = next here (message config fresh_again headers body unused_failing refl)

unused_after :
    (lookup "record-2" stuck_after.store.records_by_id ≡ none) × (is_blank "record-2" ≡ false)
unfolding handle_send_message is_truthy create_pending
unused_after = (refl, refl)

handle-stuck_example :
    ((handle_send_message memory_store failing fresh headers body empty).response ≡ none)
    × ((r : TaskRecord) × (get_by_idempotency_key stuck_after.store
            (failing.key_text (key failing fresh bill))
          ≡ some r)
        × (r.lifecycle_state ≡ pending))
    × (asked_about (failing.key_text (key failing fresh bill)) stuck_after.log ≡ false)
    × ((handle_send_message memory_store config fresh_again headers body stuck_after.store).calls
        ≡ [])
    × ((handle_send_message memory_store config fresh_again headers body stuck_after.store).store
        ≡ stuck_after.store)
    × ((answer : Response) × ((handle_send_message memory_store config fresh_again headers body
            stuck_after.store).response
          ≡ some answer)
        × (answer.status ≡ 202))
unfolding memory_laws
handle-stuck_example =
    handle-stuck memory_store memory_laws failing config fresh fresh_again headers headers body body
      bill bill empty stuck_after memory_laws.initial_valid unused pass_failing is_free refl
      stuck_reached unused_after pass refl

postgres_store-IsLawful_example : IsLawful (postgres_store (λ a b. false))
postgres_store-IsLawful_example = postgres_store-IsLawful (λ a b. false)
