-- ===== src/Forward/Tests.antt =====
-- Runs of internal/forward, and the properties at concrete inputs.
use ocu_mcp_gateway.Base.{
  ◌++◌, trim_space, leading_spaces, blanked, reverse_onto, ◌<◌, ℕ, ◌≤◌, ◌≡◌, ◌≢◌, ◌↔◌, ◌⊎◌, refl,
  true, false, List, [], ◌∷◌, ◌++◌, none, some, ok, pos, Str, codes, length, All, arith, has_prefix,
  lookup, str_eq,
}
use ocu_mcp_gateway.Auth.{Caller}
use ocu_mcp_gateway.Forward.Session.{
  MountIntent, CreateRequest, ProvisioningPolicy, build_create_request, validate, validate_mounts,
  check_mounts, session_hint_for,
}
use ocu_mcp_gateway.Forward.Session.Admission.{Admissible, Distinct, destinations, validate_iff}
use ocu_mcp_gateway.Forward.Commands.{
  is_single_simple_command, scan, has_substitution, bash_command, first_command_from_argv, fields,
  fields_from, base_name, first_program,
}
use ocu_mcp_gateway.Forward.Commands.Simple.{
  Quoted, NoSubstitution, outside, is_single_simple_command_iff,
}
use ocu_mcp_gateway.Forward.Results.{
  ExecResponse, CallToolResult, text_block, bound, benign_message, project_call_tool_result, relay,
  project_image_sentinel,
}
use ocu_mcp_gateway.Forward.Results.Bounds.{IsLongestPart, bound_prefix, masked_exit}
use ocu_mcp_gateway.Forward.Results.Errors.{IsAnswer, is_error_iff}
use ocu_mcp_gateway.Forward.Calls.{
  World, ControlForwarder, SessionRequest, SessionResponse, forward, second_hop, post_json,
}
use ocu_mcp_gateway.Forward.Calls.Order.{Legal, forward-IsLegal}
use ocu_mcp_gateway.Forward.Calls.Success.{Granted, forward-IsGranted}

abbrev mount : Str → MountIntent
mount destination = record {
  destination = destination;
  filesystem_id = codes "fs";
  memory_store_id = [];
  read_only = true;
  cache_duration_s = 0;
}

abbrev provisioning : ProvisioningPolicy
provisioning = record {
  workload_trust_profile = pos 1;
  mount_intents = mount (codes "/in") ∷ mount (codes "/out") ∷ [];
  egress_policy = record { default_deny = true; allowed_upstream = []; filesystem_id = codes "fs" };
  resource_caps = record { cpu_cores = 0; memory_bytes = pos 0; pids_limit = some (pos 64) };
  exec_timeout_seconds = 900;
}

abbrev request : CreateRequest
request = build_create_request provisioning (codes "t/c")

admitted : validate request ≡ ok tt
unfolding validate validate_mounts check_mounts codes str_eq
admitted = refl

validate_iff_example : (validate request ≡ ok tt) ↔ (
    ((request.workload_trust_profile ≡ pos 1) ⊎ (request.workload_trust_profile ≡ pos 2))
    × (1 ≤ length request.mount_intents)
    × (length request.mount_intents ≤ 4)
    × All Admissible request.mount_intents
    × Distinct (destinations request.mount_intents)
    × (request.resource_caps.pids_limit ≢ none))
validate_iff_example = validate_iff request

abbrev configured : ℕ
configured = 900

-- A tenant with a slash in its name and a chat share a hint with another tenant and chat.
abbrev tenant : Str → Caller
tenant name = record { key_id = codes "k"; tenant = name; deployment = codes "d" }

shared_hint :
    session_hint_for (tenant (codes "a")) (codes "b/c")
    ≡ session_hint_for (tenant (codes "a/b")) (codes "c")
unfolding session_hint_for codes
shared_hint = refl

abbrev quoted_pipe : Str
quoted_pipe = codes "grep 'a|b' f"

is_single_simple_command_iff_example : (is_single_simple_command quoted_pipe ≡ true) ↔ (
    All (λ c. (c ≢ 96) × (c ≢ 10)) quoted_pipe
    × NoSubstitution quoted_pipe
    × Quoted outside quoted_pipe)
is_single_simple_command_iff_example = is_single_simple_command_iff quoted_pipe

-- `grep -q \' f; false`: the escaped quote hides the semicolon.
abbrev escaped_quote : Str
escaped_quote = codes "grep -q \\' f; false"

hidden_operator : is_single_simple_command escaped_quote ≡ true
unfolding is_single_simple_command scan has_substitution codes
hidden_operator = refl

bound_prefix_example :
    ((3 ≤ 2) × (bound 2 (65 ∷ 195 ∷ 169 ∷ []) ≡ 65 ∷ 195 ∷ 169 ∷ []))
    ⊎ ((2 < 3) × IsLongestPart 2 (65 ∷ 195 ∷ 169 ∷ []) (bound 2 (65 ∷ 195 ∷ 169 ∷ [])))
bound_prefix_example = bound_prefix 2 (65 ∷ 195 ∷ 169 ∷ [])

abbrev argv : List Str
argv = codes "/bin/sh" ∷ codes "-c" ∷ codes "grep x f" ∷ []

abbrev exited : ℕ → ExecResponse
exited code = record {
  exit_code = code;
  stdout_b64 = [];
  stderr_b64 = [];
  stdout_truncated = false;
  stderr_truncated = false;
}

abbrev digits : ℕ → Str
digits n = b'0' ∷ []

abbrev no_matches : CallToolResult
no_matches = record { content = text_block (codes "No matches found") ∷ []; is_error = false }

unmatched : project_call_tool_result some digits (exited 1) argv ≡ some no_matches
unfolding project_call_tool_result relay benign_message bash_command first_command_from_argv
    first_program fields fields_from reverse_onto base_name lookup str_eq codes
    is_single_simple_command scan has_substitution bound
unmatched = refl

is_error_iff_example :
    (no_matches.is_error ≡ true) ↔ (((exited 1).exit_code ≢ 0) × (¬ IsAnswer 1 argv))
is_error_iff_example = is_error_iff some digits (exited 1) argv no_matches unmatched

masked_exit_example :
    ((exited 1).exit_code ≡ 1)
    × ((cmd : Str) × (bash_command argv ≡ some cmd) × (is_single_simple_command cmd ≡ true))
masked_exit_example =
    masked_exit some digits (exited 1) argv no_matches unmatched (λ e. absurd (omega (arith, e)))
      refl

-- Control answers every call with a session and an exit of 0.
abbrev control : World
control = record {
  token = some (codes "s");
  round_trip = λ made call. some (200, []);
  session_reply = λ body. some (record { key = codes "k"; effective_scope = [] });
  exec_reply = λ body. some (exited 0);
  encode = λ s. s;
  decode = some;
  decimal = digits;
  scope_json = λ s. s;
}

abbrev forwarder : ControlForwarder
forwarder = record { endpoint = codes "https://c"; has_tls = true; provisioning = provisioning }

abbrev tool_call : SessionRequest
tool_call = record {
  principal = tenant (codes "t");
  tool_call = record { name = codes "bash_tool"; arguments = []; argv = argv; stdin = [] };
  session_hint = codes "c";
}

abbrev done : SessionResponse
done = record {
  correlation = codes "k";
  result = some (record { content = text_block [] ∷ []; is_error = false });
}

succeeded : (forward control forwarder tool_call).1 ≡ ok done
unfolding forward second_hop post_json codes str_eq validate validate_mounts check_mounts
    project_call_tool_result relay bound project_image_sentinel has_prefix
succeeded = refl

forward-IsLegal_example : Legal control forwarder tool_call (forward control forwarder tool_call).0
forward-IsLegal_example = forward-IsLegal control forwarder tool_call

forward-IsGranted_example : Granted control forwarder tool_call done
forward-IsGranted_example = forward-IsGranted control forwarder tool_call done succeeded

-- A no-break space parts words, and an ideographic space is trimmed.
parted : fields (codes "a" ++ (194 ∷ 160 ∷ codes "b")) ≡ codes "a" ∷ codes "b" ∷ []
unfolding fields fields_from blanked reverse_onto codes
parted = refl

trimmed_wide : trim_space (227 ∷ 128 ∷ 128 ∷ codes " x ") ≡ codes "x"
unfolding trim_space blanked leading_spaces reverse_onto codes
trimmed_wide = refl
