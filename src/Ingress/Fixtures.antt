-- ===== src/Ingress/Fixtures.antt =====
-- A caller, a body and what the other components answer to it, for runs of the handler.
use ocu_mcp_gateway.Base.{
  ◌≡◌, refl, ◌++◌, has_prefix, lookup, if◌then◌else◌, none, true, false, List, [], ◌∷◌, some, ok,
  codes, str_eq,
}
use ocu_mcp_gateway.Auth.{Caller}
use ocu_mcp_gateway.Authz.Policy.{Policy}
use ocu_mcp_gateway.Audit.{Envelope, success}
use ocu_mcp_gateway.Authz.Policy.{decide, profile_for}
use ocu_mcp_gateway.Forward.Calls.{SessionRequest, ToolCall}
use ocu_mcp_gateway.Forward.Results.{CallToolResult, text_block}
use ocu_mcp_gateway.Projection.{interpreter_path, project}
use ocu_mcp_gateway.Ingress.Readers.{
  collect, fold_name, from_params, gather, insert_all, values_of, method_from, id_from,
  tool_name_from, tool_arguments_from, tool_call_from, Decoder,
}
use ocu_mcp_gateway.Ingress.Response.{tool_result}
use ocu_mcp_gateway.Ingress.Exchange.{
  Env, Request, Effect, acquired, released, entered, left, forwarded, recorded, responded,
  bounded_resource,
}
use ocu_mcp_gateway.Ingress.Handler.{
  serve_http, admit, dispatch, authorize, serialize, serve_turn, acknowledge, call_envelope,
}

abbrev pub agent : Caller
agent = record { key_id = codes "k"; tenant = codes "t"; deployment = codes "d" }

abbrev pub tool : ToolCall
tool = record {
  name = codes "view";
  arguments = codes "A";
  argv = interpreter_path ∷ codes "-c" ∷ codes "v" ∷ [];
  stdin = codes "A";
}

abbrev pub shown : CallToolResult
shown = record { content = text_block (codes "x") ∷ []; is_error = false }

-- A policy that lets every caller use `view`.
abbrev pub open_policy : Policy
open_policy = record {
  version = 1;
  profiles =
      (codes "p", record { tools = (codes "view", record { path_prefixes = [] }) ∷ [] }) ∷ [];
  callers = [];
  default_profile = codes "p";
}

-- Texts of one letter that stand for JSON: a body B, its params P, and arguments A.
abbrev pub letters : Decoder
letters = record {
  members = λ s.
      if str_eq s (codes "B")
      then some
          ((codes "id", codes "7") ∷ (codes "method", codes "M") ∷ (codes "params", codes "P") ∷ [])
      else if str_eq s (codes "P")
      then some ((codes "name", codes "N") ∷ (codes "arguments", codes "A") ∷ [])
      else if str_eq s (codes "A")
      then some ((codes "path", codes "X") ∷ [])
      else none;
  string = λ s.
      if str_eq s (codes "M")
      then some (codes "tools/call")
      else if str_eq s (codes "N")
      then some (codes "view")
      else if str_eq s (codes "X")
      then some (codes "/home/a")
      else none;
}

abbrev pub env : Env
env = record {
  allowed_origins = [];
  authenticate = λ bearer. some agent;
  ceiling = λ key. true;
  read = ok (codes "B");
  envelope = λ raw. ok tt;
  decoder = letters;
  scripts = record { create_file = []; str_replace = []; view = codes "v" };
  validate = λ kind raw. ok tt;
  validate_result = λ x. ok tt;
  advertised = codes "view" ∷ [];
  policy = open_policy;
  serializer = λ tenant name. true;
  forward = λ q. some (record { correlation = codes "s"; result = some shown });
  emit = λ e. true;
  emit_authn = λ e. true;
  correlation = codes "m";
}

abbrev pub post : Request
post = record {
  is_post = true;
  protocol_version = codes "2025-06-18";
  origin = [];
  authorization = codes "Bearer sk-ocu-1";
  chat_id = codes "c";
  conn_id = codes "n";
  latch = some true;
}

abbrev pub asked : SessionRequest
asked = record { principal = agent; tool_call = tool; session_hint = codes "c" }

abbrev pub written : Envelope
written = call_envelope env post (codes "s") (codes "k") (codes "tools/call:view") success

abbrev pub before : List Effect
before =
    acquired (codes "k")
    ∷ entered (codes "t") (codes "view")
    ∷ forwarded asked
    ∷ recorded written true
    ∷ []

abbrev pub after : List Effect
after = left (codes "t") ∷ released (codes "k") ∷ []

pub served :
    serve_http env post
    ≡ before ++ (responded (tool_result (some (codes "7")) (codes "s") shown) ∷ after)
unfolding method_from id_from tool_name_from tool_arguments_from tool_call_from collect fold_name
    from_params gather insert_all values_of project serve_http admit dispatch authorize serialize
    serve_turn acknowledge bounded_resource decide profile_for lookup codes str_eq has_prefix
served = refl
