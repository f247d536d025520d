-- ===== src/Ingress/Connection.antt =====
-- internal/ingress/server.go and emitLogonOnce of internal/ingress/handler.go: the requests of one
-- connection, one after the other, with the latch that they share. The conditions of `caller_of`
-- are those under which `serve_http` comes to its logon.
pub mod Logon
mod Tests
use ocu_mcp_gateway.Base.{
  Bool, true, false, not, ◌&&◌, List, [], ◌∷◌, ◌++◌, Option, none, some, if◌then◌else◌, str_eq,
  is_empty,
}
use ocu_mcp_gateway.Auth.{Caller}
use ocu_mcp_gateway.Ingress.Exchange.{
  Env, Request, Effect, is_allowed_origin, pinned_protocol_version, bearer_from_header,
}
use ocu_mcp_gateway.Ingress.Handler.{latch_after, serve_http}

abbrev pub caller_of : Env → Request → Option Caller
caller_of env r =
    if not r.is_post
    then none
    else if not (is_empty r.protocol_version)
        && not (str_eq r.protocol_version pinned_protocol_version)
    then none
    else if not (is_allowed_origin env.allowed_origins r.origin)
    then none
    else env.authenticate (bearer_from_header r.authorization)

abbrev pub is_held : Option Bool → Bool
is_held none = false
is_held (some b) = b

abbrev pub latch_for : Env → Request → Option Caller → Bool → Bool
latch_for env r none held = held
latch_for env r (some c) held = is_held (latch_after env r c.key_id (some held))

-- The request with the connection's latch on its context.
abbrev pub latched : Request → Bool → Request
latched r held = record r { latch = some held }

abbrev pub serve_one : Env → Request → Bool → List Effect × Bool
serve_one env r held = (
  serve_http env (latched r held),
  latch_for env (latched r held) (caller_of env (latched r held)) held,
)

unfoldable pub serve_connection : Bool → List (Env × Request) → List Effect × Bool
serve_connection held [] = ([], held)
serve_connection held ((env, r) ∷ rest) =
    let (es, held') = serve_one env r held in
    let (fs, end) = serve_connection held' rest in (es ++ fs, end)
