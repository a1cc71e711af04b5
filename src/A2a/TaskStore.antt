-- ===== src/A2a/TaskStore.antt =====
-- extensions/a2a/receiver-middleware/src/index.js: the task records of the receiver, and the
-- interface of a store of them. Memory and Postgres are the two stores; what they share is here.
pub mod Memory
pub mod Postgres
pub mod Limits
use aiagent_portable_authori.Base.{
  ℕ, String, Bool, true, false, ◌≡◌, ◌≢◌, Option, none, some, List, if◌then◌else◌, str_eq,
}
use aiagent_portable_authori.Value.{is_blank, Value}

pub data Lifecycle : Type 0 where
  pending completed denied failed : Lifecycle

pub record Response : Type 0 where
  pub status : ℕ
  pub headers : List (String × String)
  pub body : Value

-- A response that is null is none.
pub record TaskRecord : Type 0 where
  pub id : String
  pub task_id : Value
  pub idempotency_key : String
  pub lifecycle_state : Lifecycle
  pub task : Value
  pub response : Option Response
  pub request_context : Value
  pub presenter_id : Value
  pub vc_format : Value
  pub audit_record_id : Value
  pub error_reason : Value
  pub created_at : String
  pub updated_at : String

-- The argument of `update`: none where the key is not in the patch.
pub record Patch : Type 0 where
  pub task_id : Option Value
  pub lifecycle_state : Option Lifecycle
  pub task : Option Value
  pub response : Option (Option Response)
  pub request_context : Option Value
  pub presenter_id : Option Value
  pub vc_format : Option Value
  pub audit_record_id : Option Value
  pub error_reason : Option Value

abbrev pub patched {ℓ} : {A : Type ℓ} → Option A → A → A
patched none old = old
patched (some new) old = new

-- What `createPending` returns.
pub record Created : Type 0 where
  pub created : Bool
  pub record_found : TaskRecord

-- The operations that the receiver calls, at a time `now`; a call that throws gives none.
-- `get_by_idempotency_key` is there for the laws.
pub record TaskStore : Type 1 where
  pub State : Type 0
  pub create_pending : State → TaskRecord → String → Option (State × Created)
  pub update : State → String → Patch → String → Option (State × TaskRecord)
  pub get_by_idempotency_key : State → String → Option TaskRecord

-- What a record keeps under a patch, and what the patch sets.
pub record Updated (old : TaskRecord) (patch : Patch) (new : TaskRecord) : Type 0 where
  pub same_id : new.id ≡ old.id
  pub same_key : new.idempotency_key ≡ old.idempotency_key
  pub lifecycle : new.lifecycle_state ≡ patched patch.lifecycle_state old.lifecycle_state
  pub answer : new.response ≡ patched patch.response old.response

-- What a record that is created keeps of the one that is handed in.
pub record Stored (given : TaskRecord) (new : TaskRecord) : Type 0 where
  pub same_id : new.id ≡ given.id
  pub same_key : new.idempotency_key ≡ given.idempotency_key
  pub lifecycle : new.lifecycle_state ≡ given.lifecycle_state
  pub answer : new.response ≡ given.response

module _ (S : TaskStore) where
  -- After a step, the record of one key is `r`, and those of the others are as before.
  abbrev pub SetsKey : S.State → String → TaskRecord → S.State → Type 0
  SetsKey s key r s' =
      (other : String)
      → S.get_by_idempotency_key s' other
        ≡ (if str_eq key other then some r else S.get_by_idempotency_key s other)

  -- The contract of a store: it can be empty; its records are found by their keys, one to a key; a
  -- record is made only if its key has none; an update reaches the record of its id. Every id that is
  -- not blank is unused in the empty store, and stays so until a record is made with it.
  pub record IsLawful : Type 1 where
    pub IsValid : S.State → Type 0
    pub IsUnused : S.State → String → Type 0
    pub initial : S.State
    pub initial_valid : IsValid initial
    pub initial_empty : (key : String) → S.get_by_idempotency_key initial key ≡ none
    pub initial_unused : (id : String) → is_blank id ≡ false → IsUnused initial id
    pub create_unused :
        (s s' : S.State) (given : TaskRecord) (now : String) (c : Created)
        → S.create_pending s given now ≡ some (s', c)
        → (id : String) → IsUnused s id
        → id ≢ given.id
        → IsUnused s' id
    pub update_unused :
        (s s' : S.State) (id : String) (patch : Patch) (now : String) (r : TaskRecord)
        → S.update s id patch now ≡ some (s', r)
        → (other : String) → IsUnused s other
        → IsUnused s' other
    pub found_key :
        (s : S.State) (key : String) (r : TaskRecord)
        → IsValid s
        → S.get_by_idempotency_key s key ≡ some r
        → r.idempotency_key ≡ key
    pub create_found :
        (s : S.State) (given r : TaskRecord) (now : String)
        → IsValid s
        → IsUnused s given.id
        → S.get_by_idempotency_key s given.idempotency_key ≡ some r
        → S.create_pending s given now ≡ some (s, record { created = false; record_found = r })
    pub create_new :
        (s : S.State) (given : TaskRecord) (now : String)
        → IsValid s
        → IsUnused s given.id
        → S.get_by_idempotency_key s given.idempotency_key ≡ none
        → (s' : S.State) × ((r : TaskRecord) × (S.create_pending s given now
              ≡ some (s', record { created = true; record_found = r }))
            × Stored given r
            × IsValid s'
            × SetsKey s given.idempotency_key r s')
    pub update_found :
        (s : S.State) (r : TaskRecord) (patch : Patch) (now : String)
        → IsValid s
        → S.get_by_idempotency_key s r.idempotency_key ≡ some r
        → (s' : S.State) × ((r' : TaskRecord) × (S.update s r.id patch now ≡ some (s', r'))
            × Updated r patch r'
            × IsValid s'
            × SetsKey s r.idempotency_key r' s')
