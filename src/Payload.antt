-- ===== src/Payload.antt =====
-- The normalized credential payload and its constraints: what credentialVerifier.js hands on, with
-- the fields that portauth-issuer/src/schemas/issue-request.json gives them. A text field that may
-- be absent is the empty text then; `type`, `operator` and `matchType` stand as enumerations with
-- one constructor for every other text.
use aiagent_portable_authori.Base.{ℕ, String, Option, List, Bool, true, false, str_eq}
use aiagent_portable_authori.Base.Int.{ℤ}
use aiagent_portable_authori.Value.{Value}

pub data Kind : Type 0 where
  numeric_limit temporal_window enumerated_list string_pattern : Kind
  cumulative_limit usage_limit : Kind
  other_kind : String → Kind

pub data Operator : Type 0 where
  eq lt lte gt gte : Operator
  other_operator : String → Operator

pub data MatchType : Type 0 where
  exact prefix suffix restricted_glob : MatchType
  other_match : String → MatchType

pub record StateAuthority : Type 0 where
  pub authority_id : String
  pub max_age_ms : Option ℕ

pub record Constraint : Type 0 where
  pub kind : Kind
  pub id : String
  pub field : String
  pub operator : Operator
  pub value : Option ℤ
  pub valid_from : String
  pub valid_until : String
  pub timezone : String
  pub days_of_week : Option (List String)
  pub allowed : Option (List String)
  pub denied : Option (List String)
  pub pattern : String
  pub match_type : MatchType
  pub max_amount : Option ℤ
  pub max_uses : Option ℤ
  pub limit : Option ℤ
  pub period : String
  pub scope : String
  pub scope_fields : List String
  pub state_authority : Option StateAuthority

pub record Payload : Type 0 where
  pub issuer_id : String
  pub agent_id : String
  pub credential_id : String
  pub permissions : List String
  pub constraints : List Constraint
  pub valid_from : Option String
  pub valid_until : Option String
  pub trust_tier : ℕ
  pub delegated_from : String
  pub audience : Value

-- `===` on the types, operators and match types.
unfoldable pub same_kind : Kind → Kind → Bool
same_kind numeric_limit numeric_limit = true
same_kind temporal_window temporal_window = true
same_kind enumerated_list enumerated_list = true
same_kind string_pattern string_pattern = true
same_kind cumulative_limit cumulative_limit = true
same_kind usage_limit usage_limit = true
same_kind (other_kind a) (other_kind b) = str_eq a b
same_kind _ _ = false

unfoldable pub same_operator : Operator → Operator → Bool
same_operator eq eq = true
same_operator lt lt = true
same_operator lte lte = true
same_operator gt gt = true
same_operator gte gte = true
same_operator (other_operator a) (other_operator b) = str_eq a b
same_operator _ _ = false

unfoldable pub same_match : MatchType → MatchType → Bool
same_match exact exact = true
same_match prefix prefix = true
same_match suffix suffix = true
same_match restricted_glob restricted_glob = true
same_match (other_match a) (other_match b) = str_eq a b
same_match _ _ = false
