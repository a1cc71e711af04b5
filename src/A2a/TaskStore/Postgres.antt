-- ===== src/A2a/TaskStore/Postgres.antt =====
-- `createPostgresTaskStore` of extensions/a2a/receiver-middleware/src/index.js: the table as a list
-- of rows, with its PRIMARY KEY and its UNIQUE idempotency key. A value that is undefined is stored
-- as null, and JSON comes back as it was put in.
pub mod Laws
use aiagent_portable_authori.Base.{
  ℕ, String, Bool, true, false, ◌||◌, Option, none, some, List, [], ◌∷◌, if◌then◌else◌, filter,
  find?, str_eq, any,
}
use aiagent_portable_authori.Base.Num.{Num}
use aiagent_portable_authori.Value.{Value, null, or_else, or_value, is_truthy}
use aiagent_portable_authori.A2a.TaskStore.{
  Lifecycle, Response, TaskRecord, Patch, patched, Created, TaskStore,
}
use aiagent_portable_authori.A2a.TaskStore.Limits.{bounded_limit, take, newest_first, newest}

abbrev pub Rows : Type 0
Rows = List TaskRecord

-- `WHERE id = $1 OR idempotency_key = $2`
abbrev pub clashes : TaskRecord → TaskRecord → Bool
clashes given row = str_eq row.id given.id || str_eq row.idempotency_key given.idempotency_key

-- The row that INSERT makes of a record.
unfoldable pub row_of : TaskRecord → String → TaskRecord
unfolding is_truthy
row_of given now = record given {
  task_id = or_value given.task_id null;
  task = or_else given.task null;
  request_context = or_else given.request_context null;
  presenter_id = or_value given.presenter_id null;
  vc_format = or_value given.vc_format null;
  audit_record_id = or_value given.audit_record_id null;
  error_reason = or_value given.error_reason null;
  created_at = now;
  updated_at = now;
}

-- INSERT, which violates a unique constraint (23505) if a row has the id or the key.
unfoldable pub insert_row : Rows → TaskRecord → Option Rows
insert_row rows row = if any (clashes row) rows then none else some (row ∷ rows)

abbrev set_value : Option Value → Value → Value
set_value none old = old
set_value (some v) old = or_else v null

-- The SET clause of UPDATE.
unfoldable pub patch_row : TaskRecord → Patch → String → TaskRecord
patch_row old patch now = record old {
  task_id = set_value patch.task_id old.task_id;
  lifecycle_state = patched patch.lifecycle_state old.lifecycle_state;
  task = set_value patch.task old.task;
  response = patched patch.response old.response;
  request_context = set_value patch.request_context old.request_context;
  presenter_id = set_value patch.presenter_id old.presenter_id;
  vc_format = set_value patch.vc_format old.vc_format;
  audit_record_id = set_value patch.audit_record_id old.audit_record_id;
  error_reason = set_value patch.error_reason old.error_reason;
  updated_at = now;
}

-- UPDATE ... WHERE id = $1 RETURNING *
unfoldable pub update_rows : Rows → String → Patch → String → Rows
unfolding patch_row
update_rows [] id patch now = []
update_rows (row ∷ rows) id patch now =
    if str_eq row.id id then patch_row row patch now ∷ rows else row ∷ update_rows rows id patch now

abbrev pub updated_row : Rows → Option TaskRecord → Option (Rows × TaskRecord)
updated_row rows none = none
updated_row rows (some row) = some (rows, row)

unfoldable pub update : Rows → String → Patch → String → Option (Rows × TaskRecord)
unfolding update_rows
update rows id patch now =
    updated_row (update_rows rows id patch now)
      (find? (λ row. str_eq row.id id) (update_rows rows id patch now))

unfoldable pub get : Rows → String → Option TaskRecord
get rows id = find? (λ row. str_eq row.id id) rows

unfoldable pub get_by_idempotency_key : Rows → String → Option TaskRecord
get_by_idempotency_key rows key = find? (λ row. str_eq row.idempotency_key key) rows

module _ (is_newer : TaskRecord → TaskRecord → Bool) where
  unfoldable pub select_existing : Rows → TaskRecord → Option TaskRecord
  unfolding newest
  select_existing rows given = newest is_newer (filter (clashes given) rows)

  abbrev pub raced_with : Rows → Option TaskRecord → Option (Rows × Created)
  raced_with rows none = none
  raced_with rows (some row) = some (rows, record { created = false; record_found = row })

  -- The SELECT sees `rows`; the INSERT and the SELECT after it see `rows'`, what other writers have
  -- made of these in the meantime.
  unfoldable pub create_between : Rows → Rows → TaskRecord → String → Option (Rows × Created)
  unfolding select_existing insert_row row_of
  create_between rows rows' given now = elim (select_existing rows given) [
    | some row ↦ some (rows, record { created = false; record_found = row })
    | none ↦ elim (insert_row rows' (row_of given now)) [
      | some inserted ↦ some (inserted, record { created = true; record_found = row_of given now })
      | none ↦ raced_with rows' (select_existing rows' given)
    ]
  ]

  unfoldable pub create_pending : Rows → TaskRecord → String → Option (Rows × Created)
  unfolding create_between
  create_pending rows given now = create_between rows rows given now

  unfoldable pub get_by_task_id : (Value → Bool) → Rows → Option TaskRecord
  unfolding newest
  get_by_task_id is_it rows = newest is_newer (filter (λ r. is_it r.task_id) rows)

  unfoldable pub list : Num → Rows → List TaskRecord
  unfolding bounded_limit take newest_first
  list limit rows = take (bounded_limit limit) (newest_first is_newer rows)

  abbrev pub postgres_store : TaskStore
  postgres_store = record {
    State = Rows;
    create_pending = create_pending;
    update = update;
    get_by_idempotency_key = get_by_idempotency_key;
  }

unfoldable pub clear : Rows → Rows
clear rows = []
