-- ===== src/A2a/Metadata/Laws.antt =====
-- Laws of the metadata of extensions/a2a/sdk/src/index.js.
use aiagent_portable_authori.Base.{ap, ◌∙◌, true, ◌≡◌, refl, some, [], arith, ◌||◌}
use aiagent_portable_authori.Value.{
  Value, Fields, get, is_undefined, is_filled, is_truthy, includes_value,
}
use aiagent_portable_authori.A2a.{vc_formats}
use aiagent_portable_authori.A2a.Metadata.{
  metadata_in, Parts, PortAuth, token_of, format_or_default, is_chain, chain_or_empty, metadata_of,
  build_port_auth_metadata, validate_port_auth_metadata, port_auth_of, extract_port_auth_metadata,
  vc_key, vc_format_key, presenter_id_key, delegation_chain_key,
}

-- What the sender means by its arguments.
abbrev pub meant : Parts → PortAuth
unfolding is_truthy
meant p = record {
  credential = token_of p;
  vc_format = format_or_default p.vc_format;
  presenter_id = p.presenter_id;
  proof_of_possession = p.proof_of_possession;
  idempotency_key = p.idempotency_key;
  delegation_chain = chain_or_empty p.delegation_chain;
}

-- The chain that `buildPortAuthMetadata` does not look at.
abbrev pub HasChain : Parts → Type 0
HasChain p = (is_undefined p.delegation_chain || is_chain p.delegation_chain) ≡ true

port_auth_of-metadata_of : (p : Parts) → port_auth_of (metadata_of p) ≡ meant p
unfolding port_auth_of metadata_of get
port_auth_of-metadata_of p = ground arith

get-metadata_of :
    (p : Parts)
    → (get vc_key (metadata_of p) ≡ token_of p)
      × (get vc_format_key (metadata_of p) ≡ format_or_default p.vc_format)
      × (get presenter_id_key (metadata_of p) ≡ p.presenter_id)
      × (get delegation_chain_key (metadata_of p) ≡ p.delegation_chain)
unfolding get metadata_of
get-metadata_of p = (refl, refl, refl, ground arith)

-- What the checks of `buildPortAuthMetadata` let through.
record Checked (p : Parts) : Type 0 where
  token : is_filled (token_of p) ≡ true
  format : includes_value vc_formats (format_or_default p.vc_format) ≡ true
  presenter : is_filled p.presenter_id ≡ true

build_port_auth_metadata-Checked :
    (p : Parts) (metadata : Fields) → build_port_auth_metadata p ≡ some metadata → Checked p
unfolding build_port_auth_metadata
build_port_auth_metadata-Checked p metadata h = ground (arith)

validate-metadata_of :
    (p : Parts) → Checked p → HasChain p → validate_port_auth_metadata (metadata_of p) ≡ []
unfolding validate_port_auth_metadata
validate-metadata_of p c k = rw (get-metadata_of p).0 (
    rw (get-metadata_of p).1 (
      rw (get-metadata_of p).2
        (rw (get-metadata_of p).3 (rw c.token (rw c.format (rw c.presenter (rw k refl)))))))

-- A call that does not throw gives the metadata of its arguments.
pub build_port_auth_metadata-eq_some :
    (p : Parts) (metadata : Fields)
    → build_port_auth_metadata p ≡ some metadata
    → metadata ≡ metadata_of p
unfolding build_port_auth_metadata
build_port_auth_metadata-eq_some p metadata h = ground arith

-- `extractPortAuthMetadata` gives back what was put in, if the chain is one.
pub extract-build :
    (p : Parts) (metadata : Fields) (message : Value)
    → build_port_auth_metadata p ≡ some metadata
    → HasChain p
    → metadata_in message ≡ metadata
    → extract_port_auth_metadata message ≡ some (meant p)
unfolding extract_port_auth_metadata
extract-build p metadata message h k at =
    let same = at ∙ build_port_auth_metadata-eq_some p metadata h in
    rw same (
      rw (validate-metadata_of p (build_port_auth_metadata-Checked p metadata h) k)
        (ap some (port_auth_of-metadata_of p)))
