-- ===== src/Ingress/Response.antt =====
-- internal/ingress/response.go and internal/ingress/handshake.go: the responses.
use ocu_mcp_gateway.Base.{
  ℕ, Bool, ◌&&◌, ltb, leb, Option, none, some, if◌then◌else◌, Str, codes, ℤ, negsuc, Result, ok,
  err,
}
use ocu_mcp_gateway.Profile.{
  Reason, unknown, base_schema, profile_schema, over_size, batching, method_not_found, Deny,
}
use ocu_mcp_gateway.Forward.Results.{CallToolResult}

-- A status code and a body: an error with a code, a message and the request's id, if it is
-- echoed; one of the results; or nothing.
pub data Response : Type 0 where
  rpc_error : ℕ → ℤ → Str → Option Str → Response
  initialize_result : Option Str → Response
  tools_list : Option Str → Response
  tool_result : Option Str → Str → CallToolResult → Response
  accepted : Response

abbrev pub parse_error : ℤ
parse_error = negsuc 32699

abbrev pub invalid_request : ℤ
invalid_request = negsuc 32599

abbrev pub method_not_allowed : ℤ
method_not_allowed = negsuc 32600

abbrev pub invalid_params : ℤ
invalid_params = negsuc 32601

abbrev pub internal_error : ℤ
internal_error = negsuc 32602

abbrev pub is_2xx : ℕ → Bool
is_2xx status = leb 200 status && ltb status 300

-- An error without an id is never served with a 2xx status.
unfoldable pub write_rpc_error : ℕ → ℤ → Str → Response
write_rpc_error status code reason =
    rpc_error (if is_2xx status then 500 else status) code reason none

abbrev pub write_rpc_error_with_id : Option Str → ℕ → ℤ → Str → Response
write_rpc_error_with_id id status code reason = rpc_error status code reason id

abbrev pub reason_string : Reason → Str
reason_string unknown = codes "internal"
reason_string base_schema = codes "base_schema_violation"
reason_string profile_schema = codes "profile_constraint_violation"
reason_string over_size = codes "payload_over_size_bound"
reason_string batching = codes "batching_not_permitted"
reason_string method_not_found = codes "method_not_found"

abbrev pub deny_status : Reason → ℕ
deny_status over_size = 413
deny_status _ = 400

abbrev pub deny_code : Reason → ℤ
deny_code batching = invalid_request
deny_code over_size = invalid_params
deny_code method_not_found = method_not_allowed
deny_code base_schema = invalid_params
deny_code profile_schema = invalid_params
deny_code unknown = invalid_request

abbrev pub deny_message : Reason → Str
deny_message unknown = codes "invalid request"
deny_message r = reason_string r

abbrev pub write_profile_deny : Option Str → Deny → Response
write_profile_deny id d =
    write_rpc_error_with_id id (deny_status d.reason) (deny_code d.reason) (deny_message d.reason)

-- A failure to read the body: it is over the cap, or anything else.
pub data ReadError : Type 0 where
  too_large broken : ReadError

unfoldable pub write_decode_error : ReadError → Response
unfolding write_rpc_error
write_decode_error too_large = write_rpc_error 413 invalid_params (codes "request body too large")
write_decode_error broken = write_rpc_error 400 parse_error (codes "invalid request body")

abbrev pub unimplemented_tool : Option Str → Response
unimplemented_tool id = write_rpc_error_with_id id 200 invalid_params (codes "unimplemented tool")

abbrev pub validated_result : Option Str → Str → CallToolResult → Result Deny (Unit {0}) → Response
validated_result id correlation r (err d) =
    write_rpc_error_with_id id 500 internal_error (codes "invalid upstream result")
validated_result id correlation r (ok u) = tool_result id correlation r

abbrev pub write_tool_result :
    (CallToolResult → Result Deny (Unit {0})) → Option Str → Str → Option CallToolResult → Response
write_tool_result validate id correlation none = unimplemented_tool id
write_tool_result validate id correlation (some r) = validated_result id correlation r (validate r)
