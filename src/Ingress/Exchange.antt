-- ===== src/Ingress/Exchange.antt =====
-- internal/ingress/handler.go and origin.go: a request, what the handler does with it, and what it
-- asks of the other components.
use ocu_mcp_gateway.Base.{
  ℕ, ok, err, Bool, true, ◌&&◌, ◌||◌, ltb, List, [], ◌∷◌, ◌++◌, Option, none, some, if◌then◌else◌,
  Str, codes, str_eq, is_empty, length, take, drop, has_prefix, any, Result,
}
use ocu_mcp_gateway.Auth.{Caller}
use ocu_mcp_gateway.Audit.{Envelope, AuthnEnvelope}
use ocu_mcp_gateway.Authz.Policy.{Policy}
use ocu_mcp_gateway.Profile.{Deny, Kind}
use ocu_mcp_gateway.Projection.{Scripts}
use ocu_mcp_gateway.Forward.Calls.{SessionRequest, SessionResponse}
use ocu_mcp_gateway.Forward.Results.{CallToolResult}
use ocu_mcp_gateway.Ingress.Readers.{Decoder}
use ocu_mcp_gateway.Ingress.Response.{Response, ReadError, too_large, broken}

pub record Request : Type 0 where
  pub is_post : Bool
  pub protocol_version : Str
  pub origin : Str
  pub authorization : Str
  pub chat_id : Str
  pub conn_id : Str
  -- The latch of the connection, if its listener has one.
  pub latch : Option Bool

pub data Effect : Type 0 where
  logged : AuthnEnvelope → Bool → Effect
  acquired : Str → Effect
  released : Str → Effect
  entered : Str → Str → Effect
  left : Str → Effect
  forwarded : SessionRequest → Effect
  recorded : Envelope → Bool → Effect
  responded : Response → Effect

pub record Env : Type 0 where
  pub allowed_origins : List Str
  pub authenticate : Str → Option Caller
  pub ceiling : Str → Bool
  pub read : Result ReadError Str
  pub envelope : Str → Result Deny (Unit {0})
  pub decoder : Decoder
  pub scripts : Scripts
  pub validate : Kind → Str → Result Deny (Unit {0})
  pub validate_result : CallToolResult → Result Deny (Unit {0})
  pub advertised : List Str
  pub policy : Policy
  pub serializer : Str → Str → Bool
  pub forward : SessionRequest → Option SessionResponse
  pub emit : Envelope → Bool
  pub emit_authn : AuthnEnvelope → Bool
  pub correlation : Str

abbrev pub max_body_bytes : ℕ
max_body_bytes = 524288

-- The body of a request, if it has one: the bytes that arrive, and whether the stream fails after
-- them. A reader of `http.MaxBytesReader` fails at the byte after the bound.
unfoldable pub read_bounded : Option (Str × Bool) → Result ReadError Str
read_bounded none = ok []
read_bounded (some (sent, fails)) =
    if ltb max_body_bytes (length sent)
    then err too_large
    else if fails
    then err broken
    else ok sent

abbrev pub pinned_protocol_version : Str
pinned_protocol_version = codes "2025-06-18"

abbrev pub bearer_prefix : Str
bearer_prefix = codes "Bearer "

abbrev pub bearer_from_header : Str → Str
bearer_from_header h =
    if ltb (length bearer_prefix) (length h) && has_prefix h bearer_prefix
    then drop (length bearer_prefix) h
    else []

abbrev pub resource_prefix : Str
resource_prefix = codes "tools/call:"

unfoldable pub bounded_resource : Str → Str
bounded_resource tool =
    if is_empty tool
    then resource_prefix ++ codes "(unnamed)"
    else if ltb 1024 (length (resource_prefix ++ tool))
    then take 1024 (resource_prefix ++ tool)
    else resource_prefix ++ tool

-- `len(msg.ID) == 0 || string(msg.ID) == "null"`.
abbrev pub is_absent : Option Str → Bool
is_absent none = true
is_absent (some id) = is_empty id || str_eq id (codes "null")

-- The policy of origins, as the list of the members of its set.
unfoldable pub new_origin_policy : List Str → List Str
new_origin_policy [] = []
new_origin_policy (o ∷ os) =
    let rest = new_origin_policy os in if is_empty o then rest else o ∷ rest

abbrev pub is_allowed_origin : List Str → Str → Bool
is_allowed_origin allowed origin = is_empty origin || any (str_eq origin) allowed
