-- ===== src/Profile/Tests.antt =====
-- Runs of the validator of internal/profile, and the property at a concrete request.
use ocu_mcp_gateway.Base.{
  ◌^◌, ◌-◌, add_int, ◌≡◌, pos, negsuc, refl, true, [], ◌∷◌, none, some, ok, err, Str, codes, str_eq,
  lookup,
}
use ocu_mcp_gateway.Profile.{
  Decoding, call_tool_request, default_limits, method_not_found, batching, invalid, validate,
  validate_base, validate_members, validate_call_tool_params, require_jsonrpc_marker,
  require_allowed_method, trim_leading_space, enforce_size, validate_single_message_envelope,
}

-- Every text is a call of the method that it names.
abbrev reader : Decoding
reader = record {
  Doc = Str;
  document = some;
  members = λ raw.
      some
        ((codes "jsonrpc", codes "2.0") ∷ (codes "method", raw) ∷ (codes "params", codes "p") ∷ []);
  string = some;
  call_params = λ raw. some (record { name = some (codes "view"); arguments = codes " {}" });
  single_message = λ doc. true;
  def_schema = λ name. none;
}

abbrev call : Str
call = codes "tools/call"

called : validate reader default_limits call_tool_request call ≡ ok tt
unfolding validate validate_base validate_members validate_call_tool_params require_jsonrpc_marker
    require_allowed_method trim_leading_space enforce_size codes str_eq lookup
called = refl

-- A negative limit is no limit.
unlimited :
    enforce_size reader
      (record default_limits { max_tool_arguments_bytes = negsuc 0 })
      call_tool_request
      call
    ≡ ok tt
unfolding enforce_size codes
unlimited = refl

listed :
    validate reader default_limits call_tool_request (codes "tools/list")
    ≡ err (record { kind = call_tool_request; reason = method_not_found })
unfolding validate validate_base validate_members validate_call_tool_params require_jsonrpc_marker
    require_allowed_method trim_leading_space enforce_size codes str_eq lookup
listed = refl

batched :
    validate_single_message_envelope reader (codes " [1]")
    ≡ err (record { kind = invalid; reason = batching })
unfolding validate_single_message_envelope trim_leading_space codes
batched = refl

wrapped : add_int (pos (2 ^ 63 - 1)) (pos 1) ≡ negsuc (2 ^ 63 - 1)
wrapped = refl
