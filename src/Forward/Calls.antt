-- ===== src/Forward/Calls.antt =====
-- internal/forward/http.go: the calls that a forward makes to Control, and its outcome. The HTTP
-- client, the credential, JSON and base64 are the fields of a `World`; a round trip may depend on
-- the calls before it. A result that the code marshals is the value that is marshalled.
pub mod Order
pub mod Success
use ocu_mcp_gateway.Base.{
  ℕ, Bool, true, false, not, ◌&&◌, ◌||◌, ltb, leb, List, [], ◌∷◌, ◌++◌, Option, none, some,
  if◌then◌else◌, map, Str, codes, str_eq, is_empty, take, Result, ok, err,
}
use ocu_mcp_gateway.Auth.{Caller}
use ocu_mcp_gateway.Forward.Session.{
  MountIntent, EgressPolicy, CreateRequest, ProvisioningPolicy, Inadmissible, build_create_request,
  session_hint_for, validate, clamp_exec_timeout,
}
use ocu_mcp_gateway.Forward.Results.{
  ExecResponse, CallToolResult, text_block, project_call_tool_result,
}

pub record CreateBody : Type 0 where
  pub session_hint : Str
  pub image : Str
  pub mount_intents : List MountIntent
  pub egress_policy : EgressPolicy

pub record ExecBody : Type 0 where
  pub session_hint : Str
  pub argv : List Str
  pub stdin_b64 : Str
  pub timeout_s : ℕ

-- A request to Control, by its path.
pub data Call : Type 0 where
  create : CreateBody → Call
  status : Str → Call
  exec : ExecBody → Call
  destroy : Str → Call

pub record SessionReply : Type 0 where
  pub key : Str
  pub effective_scope : Str

pub record ToolCall : Type 0 where
  pub name : Str
  pub arguments : Str
  pub argv : List Str
  pub stdin : Str

pub record SessionRequest : Type 0 where
  pub principal : Caller
  pub tool_call : ToolCall
  pub session_hint : Str

pub record SessionResponse : Type 0 where
  pub correlation : Str
  pub result : Option CallToolResult

pub record ControlForwarder : Type 0 where
  pub endpoint : Str
  pub has_tls : Bool
  pub provisioning : ProvisioningPolicy

-- What ErrForwardFailed wraps.
pub data Failure : Type 0 where
  no_endpoint no_transport no_credential round_trip_failed bad_status undecodable : Failure
  inadmissible : Inadmissible → Failure

pub record World : Type 0 where
  pub token : Option Str
  pub round_trip : List Call → Call → Option (ℕ × Str)
  pub session_reply : Str → Option SessionReply
  pub exec_reply : Str → Option ExecResponse
  pub encode : Str → Str
  pub decode : Str → Option Str
  pub decimal : ℕ → Str
  pub scope_json : Str → Str

abbrev pub max_reply_bytes : ℕ
max_reply_bytes = 262144

abbrev pub Outcome : Type 0
Outcome = List Call × Result Failure SessionResponse

abbrev pub project_scope_result : (Str → Str) → Str → CallToolResult
project_scope_result scope_json scope = record {
  content = text_block (scope_json scope) ∷ [];
  is_error = false;
}

-- The reply of a round trip: its body, up to the bound of the reader, if the status is 2xx.
abbrev pub accepted : Option (ℕ × Str) → Result Failure Str
accepted none = err round_trip_failed
accepted (some (code, body)) =
    if ltb code 200 || leb 300 code then err bad_status else ok (take max_reply_bytes body)

module _ (w : World) where
  unfoldable pub post_json : List Call → Call → Result Failure Str
  post_json made call = accepted (w.round_trip made call)

  abbrev pub status_decoded : List Call → Str → Option SessionReply → Outcome
  status_decoded made key none = (made, err undecodable)
  status_decoded made key (some reply) = (
    made,
    ok (record {
      correlation = key;
      result = some (project_scope_result w.scope_json reply.effective_scope);
    }),
  )

  abbrev pub status_replied : List Call → Str → Result Failure Str → Outcome
  status_replied made key (err e) = (made, err e)
  status_replied made key (ok body) = status_decoded made key (w.session_reply body)

  abbrev pub projected : List Call → Str → Option CallToolResult → Outcome
  projected made key none = (made, err undecodable)
  projected made key (some r) = (made, ok (record { correlation = key; result = some r }))

  abbrev pub exec_decoded : List Call → Str → List Str → Option ExecResponse → Outcome
  exec_decoded made key argv none = (made, err undecodable)
  exec_decoded made key argv (some reply) =
      projected made key (project_call_tool_result w.decode w.decimal reply argv)

  abbrev pub exec_replied : List Call → Str → List Str → Result Failure Str → Outcome
  exec_replied made key argv (err e) = (made, err e)
  exec_replied made key argv (ok body) = exec_decoded made key argv (w.exec_reply body)

  abbrev pub exec_call : ControlForwarder → Str → ToolCall → Call
  exec_call f hint t = exec (record {
    session_hint = hint;
    argv = t.argv;
    stdin_b64 = if is_empty t.stdin then [] else w.encode t.stdin;
    timeout_s = clamp_exec_timeout f.provisioning.exec_timeout_seconds;
  })

  -- The second call of a forward, if any: after the create call `made` has replied with `key`.
  unfoldable pub second_hop : ControlForwarder → Str → ToolCall → List Call → Str → Outcome
  unfolding post_json
  second_hop f hint t made key =
      if str_eq t.name (codes "resolve_scope")
      then status_replied (made ++ status hint ∷ []) key (post_json made (status hint))
      else if is_empty t.argv
      then (made, ok (record { correlation = key; result = none }))
      else exec_replied (made ++ exec_call f hint t ∷ []) key t.argv
          (post_json made (exec_call f hint t))

  abbrev pub create_decoded :
      ControlForwarder → Str → ToolCall → List Call → Option SessionReply → Outcome
  create_decoded f hint t made none = (made, err undecodable)
  create_decoded f hint t made (some reply) = second_hop f hint t made reply.key

  abbrev pub create_replied :
      ControlForwarder → Str → ToolCall → List Call → Result Failure Str → Outcome
  create_replied f hint t made (err e) = (made, err e)
  create_replied f hint t made (ok body) = create_decoded f hint t made (w.session_reply body)

  abbrev pub create_call : CreateRequest → Call
  create_call r = create (record {
    session_hint = r.session_hint;
    image = [];
    mount_intents = r.mount_intents;
    egress_policy = r.egress_policy;
  })

  abbrev pub admitted :
      ControlForwarder → SessionRequest → CreateRequest → Result Inadmissible (Unit {0}) → Outcome
  admitted f req c (err e) = ([], err (inadmissible e))
  admitted f req c (ok u) =
      create_replied f c.session_hint req.tool_call (create_call c ∷ [])
        (post_json [] (create_call c))

  abbrev pub presented : ControlForwarder → SessionRequest → Option Str → Outcome
  presented f req none = ([], err no_credential)
  presented f req (some token) =
      let c =
        build_create_request f.provisioning (session_hint_for req.principal req.session_hint) in
      admitted f req c (validate c)

  unfoldable pub forward : ControlForwarder → SessionRequest → Outcome
  unfolding second_hop post_json
  forward f req =
      if is_empty f.endpoint
      then ([], err no_endpoint)
      else if f.has_tls
      then presented f req w.token
      else ([], err no_transport)

  abbrev pub destroyed : Result Failure Str → Result Failure (Unit {0})
  destroyed (err e) = err e
  destroyed (ok body) = ok tt

  abbrev pub destroy_with : Str → Option Str → List Call × Result Failure (Unit {0})
  destroy_with hint none = ([], err no_credential)
  destroy_with hint (some token) = (destroy hint ∷ [], destroyed (post_json [] (destroy hint)))

  unfoldable pub destroy_session : ControlForwarder → Str → List Call × Result Failure (Unit {0})
  unfolding post_json
  destroy_session f hint =
      if is_empty f.endpoint
      then ([], err no_endpoint)
      else if f.has_tls
      then destroy_with hint w.token
      else ([], err no_transport)
