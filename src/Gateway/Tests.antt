-- ===== src/Gateway/Tests.antt =====
-- A request to a running daemon, and the properties at it.
use ocu_mcp_gateway.Base.{
  ◌≢◌, false, true, sym, subst, eq_of_some, ok, insert, Any, All, ℕ, ◌≡◌, ◌++◌, Option, Json, arith,
  refl, inl, inr, false, List, [], ◌∷◌, some, Str, codes, str_eq, has_prefix, lookup,
}
use ocu_mcp_gateway.Auth.{caller_of, authenticate, resolve, matches, scan, hash_bearer}
use ocu_mcp_gateway.Auth.Hex.{decode_string}
use ocu_mcp_gateway.Audit.{validate, to_api_activity}
use ocu_mcp_gateway.Audit.Emitter.{Emitter, emit}
use ocu_mcp_gateway.Audit.FileSink.{FileSink, Fate}
use ocu_mcp_gateway.Audit.FileSink.Durability.{Holds}
use ocu_mcp_gateway.Authz.Paths.{
  is_rooted, path_under_any_prefix, clean, elements, walk, enter, split,
}
use ocu_mcp_gateway.Authz.Policy.Permits.{Permits, RootedRule}
use ocu_mcp_gateway.Ingress.Readers.Agreement.{IsSingle, matching, argument_values}
use ocu_mcp_gateway.Gateway.Scope.{forwarded-Permits}
use ocu_mcp_gateway.Authz.Policy.{Profile, ToolRule, decide, profile_for}
use ocu_mcp_gateway.Boot.{refresh}
use ocu_mcp_gateway.Forward.Calls.{SessionRequest, forward}
use ocu_mcp_gateway.Profile
use ocu_mcp_gateway.Profile.{
  Decoding, validate_base, validate_members, validate_call_tool_params, require_jsonrpc_marker,
  require_allowed_method, trim_leading_space, enforce_size, validate_single_message_envelope,
}
use ocu_mcp_gateway.Projection.{project}
use ocu_mcp_gateway.Quota.{acquire, in_flight}
use ocu_mcp_gateway.Ingress.Fixtures
use ocu_mcp_gateway.Gateway.Trail.Unaudited.{bus_unanswered}
use ocu_mcp_gateway.Ingress.Response.{tool_result}
use ocu_mcp_gateway.Ingress.Fixtures.{written, post, letters, agent, env, post, tool, shown, after}
use ocu_mcp_gateway.Ingress.Readers.{
  collect, fold_name, from_params, gather, insert_all, values_of, method_from, id_from,
  tool_name_from, tool_arguments_from, tool_call_from,
}
use ocu_mcp_gateway.Ingress.Exchange.{
  Env, Effect, acquired, entered, recorded, responded, forwarded, read_bounded, bounded_resource,
}
use ocu_mcp_gateway.Ingress.Handler.{
  serve_http, admit, dispatch, authorize, serialize, serve_turn, record_refusal,
}
use ocu_mcp_gateway.Daemon.{run_refresh_loop}
use ocu_mcp_gateway.Daemon.Fixtures.{sum, minted, host, options, daemon, serving}
use ocu_mcp_gateway.Gateway.{env_of, respond}
use ocu_mcp_gateway.Gateway.Trail.{Trail, bus_sink, replay}
use ocu_mcp_gateway.Gateway.Fixtures.{moment, ticks, keyed}
use ocu_mcp_gateway.Gateway.Identity.{Accountable, forwarded-IsAccountable}

abbrev asked : SessionRequest
asked = record { principal = caller_of minted; tool_call = tool; session_hint = codes "c" }

asked_forwarded : Any (λ e. e ≡ forwarded asked) (respond host daemon ticks moment keyed)
unfolding respond env_of read_bounded validate_single_message_envelope Profile.validate
    validate_base validate_members validate_call_tool_params require_jsonrpc_marker
    require_allowed_method trim_leading_space enforce_size authenticate resolve matches scan
    hash_bearer sum decode_string run_refresh_loop refresh acquire in_flight forward method_from
    id_from tool_name_from tool_arguments_from tool_call_from collect fold_name from_params gather
    insert_all values_of project serve_http admit dispatch authorize serialize serve_turn
    record_refusal bounded_resource decide profile_for lookup codes str_eq has_prefix insert
    path_under_any_prefix clean elements walk enter split
asked_forwarded = inr (inr (inl refl))

forwarded-IsAccountable_example : Accountable host options daemon ticks moment keyed asked
forwarded-IsAccountable_example =
    forwarded-IsAccountable host options daemon ticks moment keyed asked serving asked_forwarded

body-IsSingle : IsSingle letters (codes "B") (codes "A")
unfolding codes str_eq matching fold_name
body-IsSingle = record {
  top = (codes "id", codes "7") ∷ (codes "method", codes "M") ∷ (codes "params", codes "P") ∷ [];
  decoded = refl;
  params = codes "P";
  one_params = refl;
  inner = (codes "name", codes "N") ∷ (codes "arguments", codes "A") ∷ [];
  entered = refl;
  given = refl;
  one_arguments = refl;
}

body_read : read_bounded moment.sent ≡ ok (codes "B")
unfolding read_bounded codes
body_read = refl

abbrev scoped : ToolRule
scoped = record { path_prefixes = codes "/home/" ∷ [] }

abbrev viewing : Profile
viewing = record { tools = (codes "view", scoped) ∷ [] }

asked-RootedRule : RootedRule daemon.policy asked.principal.key_id asked.tool_call.name
unfolding profile_for lookup codes str_eq
asked-RootedRule profile rule declared granted =
    let same : viewing ≡ profile = eq_of_some declared in
    let rules : scoped ≡ rule =
      eq_of_some (subst (λ p. lookup (codes "view") p.tools ≡ some rule) (sym same) granted) in
    subst (λ r. All (λ prefix. is_rooted prefix ≡ true) r.path_prefixes) rules (refl, tt)

forwarded-Permits_example :
    Permits daemon.policy asked.principal.key_id asked.tool_call.name
      (argument_values letters asked.tool_call.arguments)
forwarded-Permits_example =
    forwarded-Permits host options daemon ticks moment keyed asked (codes "B") (codes "A") serving
      body_read body-IsSingle asked-RootedRule asked_forwarded

abbrev braces : Json → Option Str
braces object = some (codes "{}")

-- A write that is complete and durable.
abbrev fine : Fate
fine = record { context_over = false; written = 9; write_fails = false; sync_fails = false }

abbrev trail : FileSink → List Fate → ℕ → Trail braces
trail s fs seq = record { sink = (s, fs); seq = seq }

abbrev opened : FileSink
opened = record { content = codes "x\n"; durable = 2; closed = false }

abbrev grown : FileSink
grown = record { content = codes "x\n{}\n"; durable = 5; closed = false }

held : Holds (codes "x\n") opened
unfolding codes
held = record { tail = []; split = refl; covered = omega arith; clean = λ e. refl }

-- An emitter over a bus that has no endpoint, and the effects up to a record that it refuses.
abbrev unheard : ℕ → Emitter (bus_sink braces)
unheard seq = record { sink = record { endpoint = [] }; seq = seq }

abbrev refusing : Env
refusing = record env { emit = λ e. false }

abbrev until_record : List Effect
until_record =
    acquired (codes "k")
    ∷ entered (codes "t") (codes "view")
    ∷ forwarded Fixtures.asked
    ∷ recorded written false
    ∷ []

replayed : replay (bus_sink braces) (unheard 0) until_record ≡ some (unheard 1)
unfolding replay emit validate to_api_activity bounded_resource codes str_eq
replayed = refl

bus_unanswered_example :
    serve_http refusing post
    ≢ until_record ++ (responded (tool_result (some (codes "7")) (codes "s") shown) ∷ after)
bus_unanswered_example =
    bus_unanswered braces refusing post agent until_record after (some (codes "7")) (codes "s")
      shown (unheard 0) (unheard 1) refl replayed
