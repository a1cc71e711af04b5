-- ===== src/A2a/Metadata.antt =====
-- extensions/a2a/sdk/src/index.js: the metadata under which a message carries a credential
-- (`buildPortAuthMetadata`, `validatePortAuthMetadata`, `extractPortAuthMetadata`). A call that
-- throws gives none.
pub mod Laws
use aiagent_portable_authori.Base.{
  String, Bool, true, false, not, ◌&&◌, ◌||◌, Option, none, some, List, [], ◌∷◌, ◌++◌,
  if◌then◌else◌, is_empty, every, includes,
}
use aiagent_portable_authori.Value.{
  Value, Fields, nil, field, undefined, str, arr, obj, get, member, fields_of, elements,
  is_undefined, is_filled, is_truthy, or_value, includes_value,
}
use aiagent_portable_authori.A2a.{vc_formats}

-- `metadataKeys`
abbrev pub vc_key : String
vc_key = "https://kyndryl-open-source.github.io/aiagent-portable-authorization/a2a/v1/vc"

abbrev pub vc_format_key : String
vc_format_key =
    "https://kyndryl-open-source.github.io/aiagent-portable-authorization/a2a/v1/vcFormat"

abbrev pub presenter_id_key : String
presenter_id_key =
    "https://kyndryl-open-source.github.io/aiagent-portable-authorization/a2a/v1/presenterId"

abbrev pub proof_of_possession_key : String
proof_of_possession_key =
    "https://kyndryl-open-source.github.io/aiagent-portable-authorization/a2a/v1/proofOfPossession"

abbrev pub idempotency_key_key : String
idempotency_key_key =
    "https://kyndryl-open-source.github.io/aiagent-portable-authorization/a2a/v1/idempotencyKey"

abbrev pub delegation_chain_key : String
delegation_chain_key =
    "https://kyndryl-open-source.github.io/aiagent-portable-authorization/a2a/v1/delegationChain"

-- The argument of `buildPortAuthMetadata`; what is missing is undefined.
pub record Parts : Type 0 where
  pub credential : Value
  pub vc : Value
  pub vc_format : Value
  pub presenter_id : Value
  pub proof_of_possession : Value
  pub idempotency_key : Value
  pub delegation_chain : Value

-- `credential || vc`
abbrev pub token_of : Parts → Value
token_of p = or_value p.credential p.vc

abbrev pub format_or_default : Value → Value
format_or_default undefined = str "tier1-jwt"
format_or_default v = v

-- `if (v !== undefined) metadata[key] = v`
abbrev pub if_defined : String → Value → Fields → Fields
if_defined key v rest = if is_undefined v then rest else field key v rest

unfoldable pub metadata_of : Parts → Fields
metadata_of p = field vc_key (token_of p) (
    field vc_format_key (format_or_default p.vc_format) (
      field presenter_id_key p.presenter_id (
        if_defined proof_of_possession_key p.proof_of_possession (
          if_defined idempotency_key_key p.idempotency_key
            (if_defined delegation_chain_key p.delegation_chain nil)))))

unfoldable pub build_port_auth_metadata : Parts → Option Fields
unfolding metadata_of includes_value
build_port_auth_metadata p =
    if not (is_filled (token_of p))
    then none
    else if not (includes_value vc_formats (format_or_default p.vc_format))
    then none
    else if not (is_filled p.presenter_id)
    then none
    else some (metadata_of p)

-- `Array.isArray(chain) && chain.every((item) => typeof item === "string" && item.length > 0)`
abbrev pub is_chain : Value → Bool
is_chain (arr fs) = every is_filled (elements fs)
is_chain _ = false

abbrev pub error_unless : Bool → String → List String
error_unless ok key = if ok then [] else key ∷ []

-- The fields that are reported, in order.
unfoldable pub validate_port_auth_metadata : Fields → List String
unfolding get includes_value
validate_port_auth_metadata metadata =
    error_unless (is_filled (get vc_key metadata)) vc_key
    ++ (error_unless (includes_value vc_formats (get vc_format_key metadata)) vc_format_key
        ++ (error_unless (is_filled (get presenter_id_key metadata)) presenter_id_key
            ++ error_unless
                (is_undefined (get delegation_chain_key metadata)
                  || is_chain (get delegation_chain_key metadata))
                delegation_chain_key))

-- What `extractPortAuthMetadata` returns.
pub record PortAuth : Type 0 where
  pub credential : Value
  pub vc_format : Value
  pub presenter_id : Value
  pub proof_of_possession : Value
  pub idempotency_key : Value
  pub delegation_chain : List Value

-- `chain || []`
abbrev pub chain_or_empty : Value → List Value
chain_or_empty v = if is_truthy v then elements (fields_of v) else []

unfoldable pub port_auth_of : Fields → PortAuth
unfolding get is_truthy
port_auth_of metadata = record {
  credential = get vc_key metadata;
  vc_format = get vc_format_key metadata;
  presenter_id = get presenter_id_key metadata;
  proof_of_possession = get proof_of_possession_key metadata;
  idempotency_key = get idempotency_key_key metadata;
  delegation_chain = chain_or_empty (get delegation_chain_key metadata);
}

-- `message.metadata || {}`, of which only the properties are read.
abbrev pub metadata_in : Value → Fields
metadata_in message = fields_of (member "metadata" message)

unfoldable pub extract_port_auth_metadata : Value → Option PortAuth
unfolding validate_port_auth_metadata port_auth_of get
extract_port_auth_metadata message =
    if is_empty (validate_port_auth_metadata (metadata_in message))
    then some (port_auth_of (metadata_in message))
    else none
