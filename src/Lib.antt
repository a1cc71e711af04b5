-- ===== src/Lib.antt =====
-- The decision core of portauth-engine: does a presented credential, or a chain of delegated
-- credentials, allow a request? portauth-engine/src/routes/evaluate.js asks the services in turn:
-- the credential is verified, its permissions are matched, its constraints are evaluated in a
-- context that the engine enriches, receiver-local policies are evaluated as more constraints, and
-- stateful limits are reserved in the database; decisions are written as audit records.
--
-- Files, and the code that each is about (paths from the repository's root; `services/` is
-- portauth-engine/src/services):
-- - Base: strings, lists, maps, integers and numbers with NaN. Value: JSON values and the coercions
--   that the engine applies to them. Codes: the error codes. Payload: a normalized credential and
--   its constraints, which services/credentialVerifier.js hands on.
-- - Semantic: services/semanticResolver.js (`resolveSemanticField` is resolve_semantic_field,
--   `buildMappingCacheFromRows` is build_mapping_cache_from_rows, `defaultMappings` is
--   default_mappings). Context: services/contextEnricher.js.
-- - Credential: services/credentialVerifier.js (the plain JWT profile of `verifyCredential` is
--   verify_plain_jwt, `validateAudience` is validate_audience, `verifyProofOfPossession` is
--   verify_proof_of_possession). Credential/X509 is `verifyX509Jwt`, Credential/VcJose is
--   `verifyVcJose`, and Credential/Profiles is `verifyCredential` around the three profiles.
--   Credential/Certificates: services/x509Verifier.js (`verifyX509ChainFromHeader` is
--   verify_x509_chain_from_header). Revocation: services/revocationClient.js.
-- - Evaluator and Glob: services/constraintEvaluator.js (`evaluateConstraints` is
--   evaluate_constraints, one evaluator function per constraint type; a restricted glob is matched
--   as the regular expression it is turned into). LocalPolicy: services/localPolicyMerge.js.
-- - Delegation, Delegation/Chain and Glob/Refine: services/delegationVerifier.js
--   (`verifyDelegationChain` is verify_delegation_chain, `verifyAttenuation` is verify_attenuation,
--   `isMoreRestrictive` is is_more_restrictive, `isRestrictedGlobRefinement` is
--   is_restricted_glob_refinement).
-- - Stateful: services/statefulAuthorizer.js (windows, scope keys and candidates), with
--   Stateful/Memory for `MemoryStatefulStore`, Stateful/Postgres for `PostgresStatefulStore`,
--   Stateful/Authorize for the verdict of `evaluateStatefulConstraints`, Stateful/Authorize/Results
--   for the results it lists, and Stateful/Authority for services/stateAuthorityClient.js.
-- - Workflow: services/workflowEvaluator.js. Evaluate: POST /evaluate and, in Evaluate/Batch, POST
--   /evaluate/batch, in Evaluate/Workflows POST /evaluate/workflow with its query of
--   portauth_workflow_policies (load_policy), of
--   portauth-engine/src/routes/evaluate.js, as functions from the store (counters and audit records)
--   to the store and a response; Evaluate/Laws/Trust and Evaluate/Laws/Profiles put
--   /evaluate and the verification of the credential together.
-- - StatusList: the bit lists of revoked credentials, as
--   portauth-issuer/src/services/statusListPublisher.js packs them (`setBit` is set_bit,
--   `buildEncodedStatusListFromEntries` is build_encoded_status_list) and
--   services/statusListChecker.js reads them (`decodeBitAtIndex` is decode_bit_at_index,
--   `checkBitstringStatus` is check_bitstring_status, `fetchStatusList` is fetch_status_list, with
--   its cache as a state).
-- - A2a: the extension that carries a credential in an A2A message. A2a/Header, A2a/Metadata,
--   A2a/Message, A2a/Status, A2a/Manifest and A2a/Preflight are extensions/a2a/sdk/src/index.js
--   (functions have their names in snake case), the rules of Preflight also
--   sdks/preflight/src/index.js. A2a/TaskStore, A2a/Receiver and getHeader in A2a/Header are
--   extensions/a2a/receiver-middleware/src/index.js: TaskStore is the contract of a store and
--   TaskStore/Memory and TaskStore/Postgres are the two stores; Receiver has the checks of
--   `handleSendMessage` up to the store (admit), Receiver/Verdict the records and answers,
--   Receiver/Handler the handler itself (handle_send_message), and Receiver/History sequences of
--   messages as a step relation. manifest_of in A2a/Preflight reads the fields of a manifest that
--   the rules use from the very JSON that is signed.
-- - Examples: an engine, payloads and requests on which the model is run.
--
-- How the code is rendered: an asynchronous service is a function of what it reads, and its
-- database is an argument or a state that is passed on; a failure is a value with its error code.
-- Loops are recursion on the list or the count they go through, so nothing runs on fuel. Numbers are
-- NaN or integers on one scale, without infinities and rounding. A text field that may be absent is the
-- empty text then. Objects have only their own properties. Message texts are left out.
--
-- The receiver's outcome is the store, the requests made to the engine, the events for the observer
-- and the response, none where an exception goes through. Messages are handled one after the other;
-- the race of two writers of a task record is in Postgres.create_between.
--
-- Arguments of the model, for code outside the repository or not modelled: the verification of one
-- credential (for the endpoints), its signature and issuer (Receiver, VcReceiver and X509Receiver), what
-- Node answers about certificates (X509Platform), the conversions and dates of
-- the JavaScript runtime (Runtime), calendar months, ISO texts and digests (Platform), HTTP and
-- signatures of external authorities (AuthorityNet), the signature of an audit record (Engine), the
-- engine as the receiver calls it and the mapping of a message to a request (Config), gzip, base64url
-- and fetch for status lists (StatusNet), WebCrypto, JSON and fetch for manifests (Outside).
--
-- Not modelled: the resolution of DIDs and the key stores, which are largely calls of cryptographic
-- libraries and the network; services/auditLogger.js beyond its success or failure; the bearer gate
-- of the endpoints; administration routes, the issuer apart from its status list, the reference agents, migrations and telemetry of the A2A extension,
-- and the state authority reference.
pub mod Base
pub mod Value
pub mod Codes
pub mod Payload
pub mod Semantic
pub mod Context
pub mod Workflow
pub mod Glob
pub mod Examples
pub mod Evaluator
pub mod LocalPolicy
pub mod Revocation
pub mod Credential
pub mod Delegation
pub mod Evaluate
pub mod Stateful
pub mod A2a
pub mod StatusList
