-- ===== src/Gateway/Confinement/Tests.antt =====
-- A confined key at a running daemon.
use ocu_mcp_gateway.Base.{
  leading_spaces, blanked, reverse_onto, trim_space, ◌≡◌, refl, inl, inr, false, [], some, codes,
  str_eq, has_prefix, lookup, insert, ok, if◌then◌else◌, any,
}
use ocu_mcp_gateway.Auth.{caller_of, authenticate, resolve, matches, scan, hash_bearer}
use ocu_mcp_gateway.Auth.Hex.{decode_string}
use ocu_mcp_gateway.Authz.Policy.{decide, profile_for}
use ocu_mcp_gateway.Boot.{refresh, load}
use ocu_mcp_gateway.Forward.Calls.{SessionRequest, forward}
use ocu_mcp_gateway.Profile.{
  validate_base, validate_members, validate_call_tool_params, require_jsonrpc_marker,
  require_allowed_method, trim_leading_space, enforce_size, validate_single_message_envelope,
}
use ocu_mcp_gateway.Projection.{project}
use ocu_mcp_gateway.Quota.{acquire, in_flight, new_ceiling}
use ocu_mcp_gateway.Ingress.Fixtures.{letters, env}
use ocu_mcp_gateway.Ingress.Readers.{
  Decoder, collect, fold_name, from_params, gather, insert_all, values_of, method_from, id_from,
  tool_name_from, tool_arguments_from, tool_call_from,
}
use ocu_mcp_gateway.Ingress.Exchange.{read_bounded, bounded_resource, new_origin_policy}
use ocu_mcp_gateway.Ingress.Handler.{
  serve_http, admit, dispatch, authorize, serialize, serve_turn, record_refusal,
}
use ocu_mcp_gateway.Daemon.{
  run_refresh_loop, Daemon, check_options, load_boot_set, build_forwarder, load_policy, open_sink,
  serve, policy_text,
}
use ocu_mcp_gateway.Options.{Options}
use ocu_mcp_gateway.Daemon.Fixtures.{sum, minted, host, options, daemon, baseline}
use ocu_mcp_gateway.Gateway.{Moment, env_of, respond}
use ocu_mcp_gateway.Gateway.Fixtures.{silent, moment, ticks, keyed}
use ocu_mcp_gateway.Authz.Load.{cross_check, check_callers, unserved, unserved_in, served}
use ocu_mcp_gateway.Config.KeySet.{Source, to_records, to_record}
use ocu_mcp_gateway.Config.Provisioning.{
  load_provisioning_policy, profile_from_wire, mounts_from_wire,
}
use ocu_mcp_gateway.Forward.Session.{validate, validate_mounts, check_mounts}
use ocu_mcp_gateway.Forward.Dial.{
  new_file_service_credential, read_token, new_control_forwarder_with_dial,
}
use ocu_mcp_gateway.Ingress.ResolveOnly.{
  new_resolve_only_policy, split, trimmed, compile_resolve_only, resolve_scope_tool_name,
  add_profile, bind_members,
}
use ocu_mcp_gateway.Serialize.{new_serializer}
use ocu_mcp_gateway.Gateway.Confinement.{is_exec, confined-never_exec}
use ocu_mcp_gateway.Authz.Load
use ocu_mcp_gateway.Config.KeySet
use ocu_mcp_gateway.Profile

-- The key is named by the flag, with a comma too many.
abbrev portal : Options
portal = record options { resolve_only_key_ids = codes "k1," }

abbrev confined : Daemon
confined = record daemon {
  policy = compile_resolve_only baseline (new_resolve_only_policy portal.resolve_only_key_ids);
}

confining : serve host portal ≡ ok confined
unfolding serve check_options load_boot_set KeySet.load to_records to_record load build_forwarder
    new_file_service_credential read_token trim_space leading_spaces blanked reverse_onto
    load_provisioning_policy profile_from_wire mounts_from_wire new_control_forwarder_with_dial
    validate validate_mounts check_mounts load_policy Load.load cross_check check_callers unserved
    unserved_in served compile_resolve_only new_resolve_only_policy split trimmed open_sink
    new_origin_policy new_ceiling new_serializer codes str_eq lookup insert add_profile bind_members
confining = refl

-- A body that names resolve_scope.
abbrev scoping : Decoder
scoping = record letters {
  string = λ s. if str_eq s (codes "N") then some resolve_scope_tool_name else letters.string s;
}

abbrev lookup_of_scope : Moment
lookup_of_scope = record moment { rest = record env { decoder = scoping } }

abbrev asked : SessionRequest
asked = record {
  principal = caller_of minted;
  tool_call = record {
    name = resolve_scope_tool_name;
    arguments = codes "A";
    argv = [];
    stdin = [];
  };
  session_hint = codes "c";
}

confined-never_exec_example :
    (asked.tool_call.name ≡ resolve_scope_tool_name)
    × (any is_exec (forward silent confined.forwarder.forwarder asked).0 ≡ false)
unfolding respond env_of read_bounded validate_single_message_envelope Profile.validate
    validate_base validate_members validate_call_tool_params require_jsonrpc_marker
    require_allowed_method trim_leading_space enforce_size authenticate resolve matches scan
    hash_bearer sum decode_string run_refresh_loop refresh acquire in_flight forward method_from
    id_from tool_name_from tool_arguments_from tool_call_from collect fold_name from_params gather
    insert_all values_of project serve_http admit dispatch authorize serialize serve_turn
    record_refusal bounded_resource decide profile_for lookup codes str_eq has_prefix policy_text
    new_resolve_only_policy split trimmed trim_space leading_spaces blanked reverse_onto
    compile_resolve_only add_profile bind_members insert Load.load cross_check check_callers
    unserved unserved_in served
confined-never_exec_example =
    confined-never_exec host portal confined ticks lookup_of_scope keyed asked [] baseline confining
      refl refl refl refl refl (inr (inr (inl refl)))
