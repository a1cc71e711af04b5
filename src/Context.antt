-- ===== src/Context.antt =====
-- portauth-engine/src/services/contextEnricher.js: the facts of the credential and of the request
-- that the engine adds to the caller's context, under names of its own. The request's headers, a
-- fresh identifier and `trim` are arguments.
pub mod Laws
use aiagent_portable_authori.Base.{String, List, [], ◌∷◌, if◌then◌else◌}
use aiagent_portable_authori.Base.Int.{pos}
use aiagent_portable_authori.Base.Text.{split}
use aiagent_portable_authori.Value.{
  Value, Fields, nil, field, null, num, str, arr, obj, get, put, is_blank, is_nullish, or_else,
}
use aiagent_portable_authori.Payload.{Payload}

-- What the handler takes from the request's head and from `randomUUID`.
pub record Envelope : Type 0 where
  pub request_id_header : Value
  pub forwarded_for : String
  pub trim : String → String
  pub random_uuid : String

-- `v ?? null` for a text that may be absent.
abbrev pub text_or_null : String → Value
text_or_null s = if is_blank s then null else str s

-- A normalized payload has neither `issuedAt` nor `expiresAt`, and its `delegatedFrom` is a text,
-- so the two times and the delegator are null.
unfoldable pub credential_facts : Fields → Payload → String → Fields
credential_facts ctx payload presenter = field "issuerId" (text_or_null payload.issuer_id) (
    field "subjectId" (text_or_null payload.agent_id) (
      field "presenterId" (text_or_null presenter) (
        field "audience" (or_else payload.audience null) (
          field "validFrom" null (
            field "validUntil" null (
              field "delegatorId" null (
                field "permission" (or_else (get "action" ctx) null) (
                  field "credentialId" (text_or_null payload.credential_id)
                    (field "trustTier" (num (pos payload.trust_tier)) nil)))))))))

first_part : List String → String
first_part [] = ""
first_part (s ∷ _) = s

-- The first address of X-Forwarded-For; it is a text, so what the source tries after it is not reached.
unfoldable pub request_facts : Fields → Envelope → Fields
unfolding first_part split
request_facts ctx env =
    field "requestId"
      (or_else (get "requestId" ctx) (or_else env.request_id_header (str env.random_uuid)))
      (field "ipAddress"
        (or_else (get "ipAddress" ctx) (str (env.trim (first_part (split b',' env.forwarded_for)))))
        nil)

unfoldable pub enrich_request_context : Fields → Payload → String → Envelope → Fields
unfolding credential_facts request_facts put get
enrich_request_context ctx payload presenter env =
    put "__request" (obj (request_facts ctx env))
      (put "__credential" (obj (credential_facts ctx payload presenter)) ctx)
