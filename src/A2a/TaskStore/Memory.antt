-- ===== src/A2a/TaskStore/Memory.antt =====
-- `createMemoryTaskStore` of extensions/a2a/receiver-middleware/src/index.js: records by their id,
-- and ids by their idempotency key.
pub mod Laws
use aiagent_portable_authori.Base.{
  ℕ, String, Bool, true, false, Option, none, some, List, [], ◌∷◌, map, if◌then◌else◌, filter,
}
use aiagent_portable_authori.Base.Num.{Num}
use aiagent_portable_authori.Base.Assoc.{lookup, insert}
use aiagent_portable_authori.Value.{Value, is_blank, or_default}
use aiagent_portable_authori.A2a.TaskStore.{TaskRecord, Patch, patched, Created, TaskStore}
use aiagent_portable_authori.A2a.TaskStore.Limits.{bounded_limit, take, newest_first, newest}

pub record MemoryStore : Type 0 where
  pub records_by_id : List (String × TaskRecord)
  pub ids_by_idempotency_key : List (String × String)

abbrev pub record_of_id : List (String × TaskRecord) → Option String → Option TaskRecord
record_of_id records none = none
record_of_id records (some id) = if is_blank id then none else lookup id records

unfoldable pub get_by_idempotency_key : MemoryStore → String → Option TaskRecord
unfolding lookup
get_by_idempotency_key s key = record_of_id s.records_by_id (lookup key s.ids_by_idempotency_key)

unfoldable pub find_existing : MemoryStore → TaskRecord → Option TaskRecord
unfolding get_by_idempotency_key
find_existing s given = elim (lookup given.id s.records_by_id) [
  | some r ↦ some r
  | none ↦ get_by_idempotency_key s given.idempotency_key
]

abbrev pub dated : TaskRecord → String → TaskRecord
dated given now = record given {
  created_at = or_default given.created_at now;
  updated_at = or_default given.updated_at now;
}

-- `recordsById.set(r.id, r)` and `idsByIdempotencyKey.set(r.idempotencyKey, r.id)`
abbrev pub stored : MemoryStore → TaskRecord → MemoryStore
stored s r = record {
  records_by_id = insert r.id r s.records_by_id;
  ids_by_idempotency_key = insert r.idempotency_key r.id s.ids_by_idempotency_key;
}

unfoldable pub create_pending : MemoryStore → TaskRecord → String → Option (MemoryStore × Created)
unfolding find_existing insert
create_pending s given now = elim (find_existing s given) [
  | some r ↦ some (s, record { created = false; record_found = r })
  | none ↦
      some (stored s (dated given now), record { created = true; record_found = dated given now })
]

-- `{ ...existing, ...patch }` with the fields that never change, and without a field that the patch
-- sets to undefined, which reads the same.
unfoldable pub patch_record : TaskRecord → Patch → String → TaskRecord
patch_record old patch now = record old {
  task_id = patched patch.task_id old.task_id;
  lifecycle_state = patched patch.lifecycle_state old.lifecycle_state;
  task = patched patch.task old.task;
  response = patched patch.response old.response;
  request_context = patched patch.request_context old.request_context;
  presenter_id = patched patch.presenter_id old.presenter_id;
  vc_format = patched patch.vc_format old.vc_format;
  audit_record_id = patched patch.audit_record_id old.audit_record_id;
  error_reason = patched patch.error_reason old.error_reason;
  updated_at = now;
}

unfoldable pub update : MemoryStore → String → Patch → String → Option (MemoryStore × TaskRecord)
unfolding patch_record insert lookup
update s id patch now = elim (lookup id s.records_by_id) [
  | none ↦ none
  | some old ↦
      let new = patch_record old patch now in
      some (
        record {
          records_by_id = insert id new s.records_by_id;
          ids_by_idempotency_key = insert new.idempotency_key id s.ids_by_idempotency_key;
        },
        new,
      )
]

abbrev records_of : List (String × TaskRecord) → List TaskRecord
records_of entries = map (λ entry. entry.1) entries

module _ (is_newer : TaskRecord → TaskRecord → Bool) where
  unfoldable pub get_by_task_id : (Value → Bool) → MemoryStore → Option TaskRecord
  unfolding newest
  get_by_task_id is_it s =
      newest is_newer (filter (λ r. is_it r.task_id) (records_of s.records_by_id))

  unfoldable pub list : Num → MemoryStore → List TaskRecord
  unfolding bounded_limit take newest_first
  list limit s = take (bounded_limit limit) (newest_first is_newer (records_of s.records_by_id))

unfoldable pub clear : MemoryStore → MemoryStore
clear s = record { records_by_id = []; ids_by_idempotency_key = [] }

abbrev pub memory_store : TaskStore
memory_store = record {
  State = MemoryStore;
  create_pending = create_pending;
  update = update;
  get_by_idempotency_key = get_by_idempotency_key;
}
