-- ===== src/Examples.antt =====
-- A runtime, an engine and a delegation to run the model on.
mod Pipeline
mod Constraints
mod Counting
mod Workflows
mod Credentials
mod Messages
mod Published
mod Certificates
mod Profiles
use aiagent_portable_authori.Base.{
  ℕ, String, Bool, true, false, Option, none, some, List, [], ◌∷◌, if◌then◌else◌, str_eq, ◌≡◌, ◌≢◌,
  eq_iff, arith,
}
use aiagent_portable_authori.Base.Int.{ℤ, pos}
use aiagent_portable_authori.Base.Num.{Num, nan, fin}
use aiagent_portable_authori.Codes.{ErrorCode, signature_invalid}
use aiagent_portable_authori.Value.{
  Value, Fields, nil, field, undefined, null, str, num, obj, Runtime, LocalParts,
}
use aiagent_portable_authori.Payload.{
  Kind, numeric_limit, temporal_window, enumerated_list, string_pattern, usage_limit, Operator, lte,
  eq, MatchType, exact, StateAuthority, Constraint, Payload,
}
use aiagent_portable_authori.Semantic.{Mappings, default_mappings}
use aiagent_portable_authori.LocalPolicy.{Policy}
use aiagent_portable_authori.Context.{Envelope}
use aiagent_portable_authori.Delegation.Chain.{
  Verification, verified, rejected, Verifier, DelegationConfig,
}
use aiagent_portable_authori.Stateful.{Platform}
use aiagent_portable_authori.Stateful.Authority.{AuthorityNet, AuthorityRecord, Proof}
use aiagent_portable_authori.Stateful.Postgres.{Tables}
use aiagent_portable_authori.Workflow.{WorkflowPolicy, threshold}
use aiagent_portable_authori.Evaluate.{Engine, Store, Body}

-- Texts that compare unequal are different.
pub texts_apart : (s t : String) → str_eq s t ≡ false → s ≢ t
texts_apart s t h e = ground (arith, eq_iff s t)

abbrev pub monday_noon : LocalParts
monday_noon = record { weekday = "Mon"; hour = 12; minute = 0 }

abbrev pub runtime : Runtime
runtime = record {
  number_of_text = λ s.
      if str_eq s "09"
      then fin (pos 9)
      else if str_eq s "17"
      then fin (pos 17)
      else if str_eq s "00"
      then fin (pos 0)
      else nan;
  number_of_array = λ _. nan;
  parse_int = λ s. if str_eq s "5" then fin (pos 5) else nan;
  date_of = λ _. fin (pos 0);
  local_parts = λ _ _. some monday_noon;
  now = pos 0;
}

abbrev pub platform : Platform
platform = record {
  month_start = λ t. 0;
  next_month = λ t. 2_678_400_000;
  iso_string = λ t. "2026-01-01T00:00:00.000Z";
  digest = λ v. "digest";
  constraint_digest = λ i c. "constraint";
}

abbrev pub proof : Proof
proof = record {
  iss = "authority";
  counter_key = "digest";
  window_start = "2026-01-01T00:00:00.000Z";
  value = num (pos 1);
  iat = num (pos 100);
}

abbrev pub net : AuthorityNet
net = record {
  load_authority =
      λ id. some (record { base_url = "https://authority"; jwks_uri = "https://authority/jwks" });
  fetch_proof = λ a id key window. some "jws";
  verify_proof_jws = λ jws uri. some proof;
  now_ms = pos 100_500;
}

abbrev pub constraint : Kind → String → Constraint
constraint kind field_name = record {
  kind = kind;
  id = "";
  field = field_name;
  operator = eq;
  value = none;
  valid_from = "";
  valid_until = "";
  timezone = "";
  days_of_week = none;
  allowed = none;
  denied = none;
  pattern = "";
  match_type = exact;
  max_amount = none;
  max_uses = none;
  limit = none;
  period = "";
  scope = "";
  scope_fields = [];
  state_authority = none;
}

abbrev pub amount_at_most : ℕ → Constraint
amount_at_most n = record (constraint numeric_limit "core.amount") {
  operator = lte;
  value = some (pos n);
}

abbrev pub uses_at_most : ℕ → Constraint
uses_at_most n = record (constraint usage_limit "") { max_uses = some (pos n); period = "month" }

abbrev pub office_hours : Constraint
office_hours = record (constraint temporal_window "timestamp") {
  valid_from = "09:00";
  valid_until = "17:00";
  days_of_week = some ("Mon" ∷ []);
}

abbrev pub regions : Constraint
regions = record (constraint enumerated_list "region") {
  allowed = some ("EU" ∷ []);
  denied = some ("US" ∷ []);
}

abbrev pub root : Payload
root = record {
  issuer_id = "did:web:insurer";
  agent_id = "agent-a";
  credential_id = "cred-1";
  permissions = "claims.approve" ∷ "claims.read" ∷ [];
  constraints = amount_at_most 1000 ∷ [];
  valid_from = none;
  valid_until = none;
  trust_tier = 1;
  delegated_from = "";
  audience = null;
}

abbrev pub leaf : Payload
leaf = record {
  issuer_id = "agent-a";
  agent_id = "agent-b";
  credential_id = "cred-2";
  permissions = "claims.approve" ∷ [];
  constraints = amount_at_most 500 ∷ uses_at_most 3 ∷ [];
  valid_from = none;
  valid_until = none;
  trust_tier = 1;
  delegated_from = "cred-1";
  audience = null;
}

abbrev pub request : Fields
request =
    field "action" (str "claims.approve")
      (field "resource" (str "claim-7") (field "claimAmount" (num (pos 300)) nil))

abbrev pub envelope : Envelope
envelope = record {
  request_id_header = undefined;
  forwarded_for = "10.0.0.1";
  trim = λ s. s;
  random_uuid = "uuid";
}

abbrev pub body : Body
body = record {
  presenter_id = "agent-b";
  request_context = obj request;
  idempotency_key = "once";
  idempotency_header = "";
  envelope = envelope;
}

-- A local policy with a lower limit on the amount.
abbrev pub policy : Policy
policy = record {
  id = 1;
  name = "cap";
  target_permissions = "claims.approve" ∷ [];
  constraints = amount_at_most 400 ∷ [];
}

abbrev pub engine : Engine
engine = record {
  runtime = runtime;
  platform = platform;
  mappings = default_mappings;
  authorities = net;
  policies = policy ∷ [];
  time = 5_000_000;
  signs = λ _. true;
  key_text = λ _. "";
}

abbrev pub no_rows : Tables
no_rows = record { counters = []; events = [] }

abbrev pub store : Store
store = record { tables = no_rows; audit = [] }

abbrev pub verifier : Verifier
verifier c presenter skip =
    if str_eq c "root"
    then verified root
    else if str_eq c "leaf"
    then verified leaf
    else rejected signature_invalid

abbrev pub config : DelegationConfig
config = record { max_depth = "5"; require_attenuation_proof = "true" }

abbrev pub chain : List String
chain = "root" ∷ "leaf" ∷ []

-- Two roles, and two allowances that are asked for.
abbrev pub roles : WorkflowPolicy
roles = record {
  id = "two-man-rule";
  combinator = threshold;
  threshold_n = fin (pos 2);
  required_roles =
      record { role = "adjuster"; permission = "claims.approve" }
      ∷ record { role = "manager"; permission = "claims.approve" }
      ∷ [];
}
