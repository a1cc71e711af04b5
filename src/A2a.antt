-- ===== src/A2a.antt =====
-- extensions/a2a: the SDK of the A2A extension (sdk/src/index.js) and the receiver middleware
-- (receiver-middleware/src/index.js). Here: the constants of the SDK.
pub mod Header
pub mod Metadata
pub mod Message
pub mod Status
pub mod Manifest
pub mod Preflight
pub mod TaskStore
pub mod Receiver
use aiagent_portable_authori.Base.{String, List, [], ◌∷◌}

abbrev pub a2a_media_type : String
a2a_media_type = "application/a2a+json"

abbrev pub extension_uri : String
extension_uri = "https://kyndryl-open-source.github.io/aiagent-portable-authorization/a2a/v1"

abbrev pub vc_formats : List String
vc_formats = "tier1-jwt" ∷ "tier2-x509-jwt" ∷ "tier3-vc-jose" ∷ []
