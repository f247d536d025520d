-- ===== src/Ingress/Handler.antt =====
-- internal/ingress/handler.go: the handling of one request, as the list of what it does in order.
-- The other components are the fields of an `Env`, each as what it answers to this request: it is
-- asked at most once.
pub mod Single
pub mod Guards
pub mod Acknowledged
pub mod Correlated
mod Tests
use ocu_mcp_gateway.Base.{
  ℕ, Bool, true, false, not, ◌&&◌, ◌||◌, ltb, List, [], ◌∷◌, ◌++◌, Option, none, some, is_some,
  if◌then◌else◌, Str, codes, str_eq, is_empty, length, take, drop, has_prefix, any, Map, Result, ok,
  err,
}
use ocu_mcp_gateway.Auth.{Caller}
use ocu_mcp_gateway.Audit.{Envelope, AuthnEnvelope, Outcome, success, failure}
use ocu_mcp_gateway.Authz.Policy.{Policy, Value, Denial, decide}
use ocu_mcp_gateway.Profile.{Deny, Kind, call_tool_request}
use ocu_mcp_gateway.Forward.Calls.{SessionRequest, SessionResponse, ToolCall}
use ocu_mcp_gateway.Forward.Results.{CallToolResult}
use ocu_mcp_gateway.Ingress.Readers.{
  method_from, id_from, tool_name_from, tool_arguments_from, tool_call_from,
}
use ocu_mcp_gateway.Ingress.Exchange.{
  Request, Effect, Env, pinned_protocol_version, bearer_prefix, bearer_from_header, resource_prefix,
  bounded_resource, is_absent, is_allowed_origin, logged, acquired, released, entered, left,
  forwarded, recorded, responded,
}
use ocu_mcp_gateway.Ingress.Response.{
  Response, accepted, initialize_result, tools_list, ReadError, write_rpc_error,
  write_rpc_error_with_id, write_profile_deny, write_decode_error, write_tool_result,
  unimplemented_tool, invalid_request, method_not_allowed, invalid_params, internal_error,
}

module _ (env : Env) (r : Request) where
  abbrev pub echoed_id : Str → Option Str
  echoed_id raw = id_from env.decoder raw

  abbrev pub is_notification : Str → Bool
  is_notification raw =
      is_absent (id_from env.decoder raw)
      || has_prefix (method_from env.decoder raw) (codes "notifications/")

  abbrev pub authn_envelope : Outcome → Str → Str → AuthnEnvelope
  authn_envelope outcome actor detail = record {
    trace_id = env.correlation;
    conn_id = r.conn_id;
    actor_id = actor;
    outcome = outcome;
    failure_detail = detail;
    sequence = 0;
  }

  abbrev pub emit_logon : Outcome → Str → Str → List Effect
  emit_logon outcome actor detail =
      logged (authn_envelope outcome actor detail)
        (env.emit_authn (authn_envelope outcome actor detail))
      ∷ []

  -- A logon for each connection: none where the latch is held.
  abbrev pub emit_at_latch : Option Bool → Str → List Effect
  emit_at_latch (some true) actor = []
  emit_at_latch (some false) actor = emit_logon success actor []
  emit_at_latch none actor = emit_logon success actor []

  abbrev pub emit_logon_once : Str → List Effect
  emit_logon_once actor = emit_at_latch r.latch actor

  -- The latch after it: held unless there was a record that could not be emitted.
  abbrev pub latch_after : Str → Option Bool → Option Bool
  latch_after actor none = none
  latch_after actor (some true) = some true
  latch_after actor (some false) = some (env.emit_authn (authn_envelope success actor []))

  abbrev pub call_envelope : Str → Str → Str → Outcome → Envelope
  call_envelope correlation actor resource outcome = record {
    trace_id = correlation;
    session_id = correlation;
    actor_id = actor;
    resource = resource;
    action = codes "tool_call";
    outcome = outcome;
    sequence = 0;
  }

  abbrev pub audit_failed : Option Str → Response
  audit_failed id = write_rpc_error_with_id id 500 internal_error (codes "audit write failed")

  -- A refusal that is recorded, and answered with a 500 where the record could not be written.
  unfoldable pub record_refusal : Option Str → Str → Str → Response → List Effect
  record_refusal id actor resource refusal =
      let e = call_envelope env.correlation actor resource failure in
      recorded e (env.emit e) ∷ responded (if env.emit e then refusal else audit_failed id) ∷ []

  abbrev pub correlation_of : SessionResponse → Str
  correlation_of resp = if is_empty resp.correlation then env.correlation else resp.correlation

  unfoldable pub acknowledge : Caller → Str → SessionRequest → SessionResponse → List Effect
  acknowledge caller raw req resp =
      let e =
        call_envelope (correlation_of resp) caller.key_id (bounded_resource req.tool_call.name)
          success in
      recorded e (env.emit e)
      ∷ responded (
          if env.emit e
          then write_tool_result env.validate_result (echoed_id raw) (correlation_of resp)
              resp.result
          else audit_failed (echoed_id raw))
      ∷ []

  abbrev pub forward_answered : Caller → Str → SessionRequest → Option SessionResponse → List Effect
  forward_answered caller raw req none =
      record_refusal (echoed_id raw) caller.key_id (bounded_resource req.tool_call.name)
        (write_rpc_error_with_id (echoed_id raw) 502 internal_error (codes "forward refused"))
  forward_answered caller raw req (some resp) = acknowledge caller raw req resp

  abbrev pub session_request : Caller → Str → SessionRequest
  session_request caller raw = record {
    principal = caller;
    tool_call = tool_call_from env.decoder env.scripts raw;
    session_hint = r.chat_id;
  }

  -- With the session's turn: the forward, its record and its response, then the turn is given up.
  unfoldable pub serve_turn : Caller → Str → List Effect
  unfolding record_refusal acknowledge
  serve_turn caller raw =
      let req = session_request caller raw in
      entered caller.tenant req.tool_call.name
      ∷ forwarded req
      ∷ (forward_answered caller raw req (env.forward req) ++ left caller.tenant ∷ [])

  unfoldable pub serialize : Caller → Str → List Effect
  unfolding serve_turn
  serialize caller raw =
      if env.serializer caller.tenant (tool_call_from env.decoder env.scripts raw).name
      then serve_turn caller raw
      else responded (
          write_rpc_error_with_id (echoed_id raw) 429 internal_error
            (codes "session serialization queue full"))
        ∷ []

  abbrev pub decided : Caller → Str → Result Denial (Unit {0}) → List Effect
  decided caller raw (ok u) = serialize caller raw
  decided caller raw (err e) =
      record_refusal (echoed_id raw) caller.key_id
        (bounded_resource (tool_name_from env.decoder raw))
        (write_rpc_error_with_id (echoed_id raw) 403 invalid_request
          (codes "action not permitted by policy"))

  abbrev pub is_allowed_tool : Str → Bool
  is_allowed_tool name = any (str_eq name) (codes "resolve_scope" ∷ env.advertised)

  unfoldable pub authorize : Caller → Str → List Effect
  unfolding serialize record_refusal
  authorize caller raw =
      if is_allowed_tool (tool_name_from env.decoder raw)
      then decided caller raw (
          decide env.policy caller.key_id (tool_name_from env.decoder raw)
            (tool_arguments_from env.decoder raw))
      else responded (unimplemented_tool (echoed_id raw)) ∷ []

  abbrev pub validated : Caller → Str → Result Deny (Unit {0}) → List Effect
  validated caller raw (err d) = responded (write_profile_deny (echoed_id raw) d) ∷ []
  validated caller raw (ok u) = authorize caller raw

  abbrev pub version_refused : Response
  version_refused =
      write_rpc_error 400 invalid_params (codes "unsupported or missing protocol version")

  unfoldable pub dispatch : Caller → Str → List Effect
  unfolding authorize
  dispatch caller raw =
      if is_notification raw
      then responded accepted ∷ []
      else if is_empty r.protocol_version
          && not (str_eq (method_from env.decoder raw) (codes "initialize"))
      then responded version_refused ∷ []
      else if str_eq (method_from env.decoder raw) (codes "initialize")
      then responded (initialize_result (echoed_id raw)) ∷ []
      else if str_eq (method_from env.decoder raw) (codes "tools/list")
      then responded (tools_list (echoed_id raw)) ∷ []
      else validated caller raw (env.validate call_tool_request raw)

  abbrev pub enveloped : Caller → Str → Result Deny (Unit {0}) → List Effect
  enveloped caller raw (err d) = responded (write_profile_deny (echoed_id raw) d) ∷ []
  enveloped caller raw (ok u) = dispatch caller raw

  abbrev pub read_body : Caller → Result ReadError Str → List Effect
  read_body caller (err e) = responded (write_decode_error e) ∷ []
  read_body caller (ok raw) = enveloped caller raw (env.envelope raw)

  unfoldable pub admit : Caller → List Effect
  unfolding dispatch record_refusal
  admit caller =
      if env.ceiling caller.key_id
      then acquired caller.key_id ∷ (read_body caller env.read ++ released caller.key_id ∷ [])
      else record_refusal none caller.key_id (codes "tools/call:(ceiling-refused)")
          (write_rpc_error 429 internal_error (codes "connection ceiling exceeded"))

  abbrev pub authenticated : Option Caller → List Effect
  authenticated none =
      emit_logon failure [] (codes "caller key not in the boot-loaded set")
      ++ responded (write_rpc_error 401 invalid_request (codes "unauthenticated")) ∷ []
  authenticated (some caller) = emit_logon_once caller.key_id ++ admit caller

  unfoldable pub serve_http : List Effect
  unfolding admit
  serve_http =
      if not r.is_post
      then responded (write_rpc_error 405 method_not_allowed (codes "method not allowed")) ∷ []
      else if not (is_empty r.protocol_version)
          && not (str_eq r.protocol_version pinned_protocol_version)
      then responded version_refused ∷ []
      else if not (is_allowed_origin env.allowed_origins r.origin)
      then responded (write_rpc_error 403 invalid_request (codes "origin not allowed")) ∷ []
      else authenticated (env.authenticate (bearer_from_header r.authorization))
