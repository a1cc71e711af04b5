-- ===== src/Semantic.antt =====
-- portauth-engine/src/services/semanticResolver.js: semantic identifiers are
-- translated to fields of the request context by mapping profiles. The table of rows and the time
-- are arguments; the one-minute cache in front of the table is left out.
pub mod Laws
pub mod Profiles
use aiagent_portable_authori.Base.{
  ℕ, String, Bool, true, false, not, ◌&&◌, ◌||◌, Option, none, some, List, [], ◌∷◌, if◌then◌else◌,
  str_eq, leb, any,
}
use aiagent_portable_authori.Base.Text.{split, codes, starts_with}
use aiagent_portable_authori.Base.Assoc.{lookup, insert}
use aiagent_portable_authori.Codes.{
  ErrorCode, mapping_profile_invalid, semantic_alias_conflict, semantic_alias_missing,
  context_field_missing, semantic_type_mismatch, semantic_identifier_unknown,
}
use aiagent_portable_authori.Value.{
  Value, Fields, undefined, arr, obj, get, is_undefined, is_number, is_string, is_boolean, is_blank,
}

pub record Mapping : Type 0 where
  pub local_field : String
  pub field_type : String
  pub profile_id : String
  pub error_code : Option ErrorCode

-- A row of portauth_mapping_profiles.
pub record Row : Type 0 where
  pub semantic_field : String
  pub local_field : String
  pub field_type : String
  pub profile_id : String
  pub trusted : Bool
  pub valid_until : Option ℕ

abbrev pub Mappings : Type 0
Mappings = List (String × Mapping)

-- `row.trusted === false || (validUntil && validUntil <= now)`
unfoldable pub is_invalid : ℕ → Row → Bool
is_invalid now row = not row.trusted || elim row.valid_until [ none ↦ false | some t ↦ leb t now ]

unfoldable pub mapping_of : ℕ → Row → Mapping
mapping_of now row = record {
  local_field = row.local_field;
  field_type = row.field_type;
  profile_id = row.profile_id;
  error_code = if is_invalid now row then some mapping_profile_invalid else none;
}

unfoldable pub differs : Mapping → Mapping → Bool
differs current next =
    not (str_eq current.local_field next.local_field)
    || not (str_eq current.field_type next.field_type)
    || not (str_eq current.profile_id next.profile_id)

-- What the loop of `buildMappingCacheFromRows` stores for a row, given what stands there already.
unfoldable pub entry_for : Option Mapping → Mapping → Mapping
unfolding differs
entry_for none next = next
entry_for (some current) next =
    if differs current next then record next { error_code = some semantic_alias_conflict } else next

unfoldable pub add_row : ℕ → Mappings → Row → Mappings
add_row now m row =
    insert row.semantic_field (entry_for (lookup row.semantic_field m) (mapping_of now row)) m

unfoldable pub add_rows : ℕ → Mappings → List Row → Mappings
add_rows now m [] = m
add_rows now m (row ∷ rows) = add_rows now (add_row now m row) rows

unfoldable pub build_mapping_cache_from_rows : List Row → ℕ → Mappings
unfolding add_rows add_row entry_for mapping_of is_invalid
build_mapping_cache_from_rows rows now = add_rows now [] rows

abbrev mvv : String → String → String → String → String × Mapping
mvv key local type profile = (
  key,
  record { local_field = local; field_type = type; profile_id = profile; error_code = none },
)

unfoldable pub default_mappings : Mappings
default_mappings =
    mvv "core.amount" "claimAmount" "number" "mvv-core"
    ∷ mvv "core.currency_code" "currency" "string" "mvv-core"
    ∷ mvv "core.currency" "currency" "string" "mvv-core"
    ∷ mvv "core.request_time" "timestamp" "string" "mvv-core"
    ∷ mvv "core.timestamp" "timestamp" "string" "mvv-core"
    ∷ mvv "core.resource_id" "resource" "string" "mvv-core"
    ∷ mvv "core.resource_type" "resourceType" "string" "mvv-core"
    ∷ mvv "core.action" "action" "string" "mvv-core"
    ∷ mvv "core.workflow_id" "workflowId" "string" "mvv-core"
    ∷ mvv "core.workflow_role" "workflowRole" "string" "mvv-core"
    ∷ mvv "core.workflow_step_id" "workflowStepId" "string" "mvv-core"
    ∷ mvv "core.recipient_id" "recipientId" "string" "mvv-core"
    ∷ mvv "core.count" "count" "number" "mvv-core"
    ∷ mvv "core.quantity" "quantity" "number" "mvv-core"
    ∷ mvv "core.total_budget" "totalBudget" "number" "mvv-core"
    ∷ mvv "core.geo_region" "geoRegion" "string" "mvv-core"
    ∷ mvv "core.issuer_id" "__credential.issuerId" "string" "mvv-core"
    ∷ mvv "core.subject_id" "__credential.subjectId" "string" "mvv-core"
    ∷ mvv "core.presenter_id" "__credential.presenterId" "string" "mvv-core"
    ∷ mvv "core.audience_id" "__credential.audience" "string" "mvv-core"
    ∷ mvv "core.permission" "__credential.permission" "string" "mvv-core"
    ∷ mvv "core.valid_from" "__credential.validFrom" "string" "mvv-core"
    ∷ mvv "core.valid_until" "__credential.validUntil" "string" "mvv-core"
    ∷ mvv "core.delegator_id" "__credential.delegatorId" "string" "mvv-core"
    ∷ mvv "core.request_id" "__request.requestId" "string" "mvv-core"
    ∷ mvv "core.ip_address" "__request.ipAddress" "string" "mvv-core"
    ∷ mvv "insurance.claimAmount" "claimAmount" "number" "insurance-claims-v1"
    ∷ mvv "insurance.claim_amount" "claimAmount" "number" "insurance-claims-v1"
    ∷ mvv "insurance.claimType" "claimType" "string" "insurance-claims-v1"
    ∷ mvv "insurance.claim_type" "claimType" "string" "insurance-claims-v1"
    ∷ mvv "insurance.claimId" "resource" "string" "insurance-claims-v1"
    ∷ mvv "insurance.claim_id" "resource" "string" "insurance-claims-v1"
    ∷ []

-- `for (const [key, value] of dbMappings) merged.set(key, value)`
unfoldable pub merge : Mappings → Mappings → Mappings
merge merged [] = merged
merge merged ((key, value) ∷ rest) = merge (insert key value merged) rest

-- `loadMappings` when its cache is stale: the built-in mappings, overridden by the table's rows.
-- `none` stands for a table that cannot be read.
unfoldable pub load_mappings : Option (List Row) → ℕ → Mappings
unfolding merge build_mapping_cache_from_rows default_mappings
load_mappings none now = default_mappings
load_mappings (some rows) now = merge default_mappings (build_mapping_cache_from_rows rows now)

unfoldable pub is_reserved_semantic_identifier : String → Bool
is_reserved_semantic_identifier path =
    any (λ p. starts_with (codes path) (codes p))
      ("core." ∷ "insurance." ∷ "aerospace." ∷ "supply_chain." ∷ [])

unfoldable pub walk : List String → Value → Value
walk [] current = current
walk (part ∷ parts) (obj fs) = walk parts (get part fs)
walk (part ∷ parts) (arr fs) = walk parts (get part fs)
walk (part ∷ parts) _ = undefined

unfoldable pub resolve_direct_path : String → Value → Value
unfolding walk split get
resolve_direct_path path context = walk (split b'.' path) context

pub data Resolution : Type 0 where
  resolved : String → Value → Resolution
  unresolved : ErrorCode → Resolution

-- The type check of a mapped value; a type other than the three is not checked.
unfoldable pub type_fits : String → Value → Bool
type_fits type v =
    if str_eq type "number"
    then is_number v
    else if str_eq type "string"
    then is_string v
    else if str_eq type "boolean"
    then is_boolean v
    else true

unfoldable pub resolve_mapped : Mapping → Value → Resolution
unfolding type_fits
resolve_mapped mapping context = elim mapping.error_code [
  | some code ↦ unresolved code
  | none ↦
      if is_blank mapping.local_field
      then unresolved semantic_alias_missing
      else if is_undefined (resolve_direct_path mapping.local_field context)
      then unresolved context_field_missing
      else if type_fits mapping.field_type (resolve_direct_path mapping.local_field context)
      then resolved mapping.local_field (resolve_direct_path mapping.local_field context)
      else unresolved semantic_type_mismatch
]

unfoldable pub resolve_unmapped : String → Value → Resolution
unfolding is_reserved_semantic_identifier
resolve_unmapped name context =
    if is_reserved_semantic_identifier name
    then unresolved semantic_identifier_unknown
    else if is_undefined (resolve_direct_path name context)
    then unresolved context_field_missing
    else resolved name (resolve_direct_path name context)

unfoldable pub resolve_semantic_field : Mappings → String → Value → Resolution
unfolding resolve_mapped resolve_unmapped
resolve_semantic_field mappings name context = elim (lookup name mappings) [
  | some mapping ↦ resolve_mapped mapping context
  | none ↦ resolve_unmapped name context
]
