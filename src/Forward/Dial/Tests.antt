-- ===== src/Forward/Dial/Tests.antt =====
-- Forwarders built from a policy and a credential, and the property at one.
use ocu_mcp_gateway.Base.{
  reverse_onto, trim_space, ℕ, ◌≡◌, ◌≢◌, if◌then◌else◌, refl, true, [], ◌∷◌, none, some, codes,
  str_eq, pos, ok, err,
}
use ocu_mcp_gateway.Forward.Session.{
  MountIntent, ProvisioningPolicy, Inadmissible, validate, validate_mounts, check_mounts,
}
use ocu_mcp_gateway.Forward.Calls.{World, SessionRequest, forward, no_transport, inadmissible}
use ocu_mcp_gateway.Forward.Dial.{
  TlsConfig, Material, DialConfig, FileServiceCredential, Built, load_mtls_config, partial_material,
  harden_dial_config, min_tls13, new_file_service_credential, read_token, empty_token, no_tls,
  new_control_forwarder_with_dial,
}
use ocu_mcp_gateway.Forward.Dial.Configured.{built_forward}

abbrev mount : MountIntent
mount = record {
  destination = codes "/in";
  filesystem_id = codes "fs";
  memory_store_id = [];
  read_only = true;
  cache_duration_s = 0;
}

abbrev provisioning : ProvisioningPolicy
provisioning = record {
  workload_trust_profile = pos 1;
  mount_intents = mount ∷ [];
  egress_policy = record { default_deny = true; allowed_upstream = []; filesystem_id = codes "fs" };
  resource_caps = record { cpu_cores = 0; memory_bytes = pos 0; pids_limit = some (pos 64) };
  exec_timeout_seconds = 900;
}

-- Files that hold the token `t` with a newline after it, or nothing.
abbrev material : Material
material = record {
  read_file = λ path. if str_eq path (codes "token") then some (codes "t\n") else some [];
  has_pem = λ pem. true;
  load_pair = λ cert key. true;
}

abbrev credential : FileServiceCredential
credential = record { path = codes "token"; principal = codes "gateway" }

token_trimmed : read_token material credential ≡ ok (codes "t")
unfolding read_token trim_space codes str_eq reverse_onto
token_trimmed = refl

blank_refused :
    new_file_service_credential material (codes "blank") (codes "gateway") ≡ err empty_token
unfolding new_file_service_credential read_token trim_space codes str_eq reverse_onto
blank_refused = refl

triple_refused : load_mtls_config material (codes "ca") (codes "cert") [] ≡ err partial_material
unfolding load_mtls_config codes
triple_refused = refl

-- An endpoint without TLS material.
plain_refused :
    new_control_forwarder_with_dial
      (codes "gateway")
      (record { endpoint = codes "https://control"; tls = none })
      (some credential)
      provisioning
    ≡ err no_tls
unfolding new_control_forwarder_with_dial harden_dial_config validate validate_mounts check_mounts
    codes str_eq
plain_refused = refl

-- TLS 1.2 is raised to TLS 1.3.
abbrev tls : ℕ → TlsConfig
tls version = record { min_version = version; has_roots = true; has_certificate = true }

abbrev dial : DialConfig
dial = record { endpoint = codes "https://control"; tls = some (tls 0x0303) }

abbrev built : Built
built = record {
  identity = codes "gateway";
  forwarder = record { endpoint = dial.endpoint; has_tls = true; provisioning = provisioning };
  tls = some (tls 0x0304);
}

hardened :
    new_control_forwarder_with_dial (codes "gateway") dial (some credential) provisioning ≡ ok built
unfolding new_control_forwarder_with_dial harden_dial_config min_tls13 validate validate_mounts
    check_mounts codes str_eq
hardened = refl

-- A world in which no round trip has a reply.
abbrev silent : World
silent = record {
  token = some (codes "t");
  round_trip = λ made call. none;
  session_reply = λ body. none;
  exec_reply = λ body. none;
  encode = λ s. s;
  decode = λ s. some s;
  decimal = λ n. [];
  scope_json = λ s. s;
}

abbrev asked : SessionRequest
asked = record {
  principal = record { key_id = codes "k"; tenant = codes "t"; deployment = codes "d" };
  tool_call = record { name = codes "view"; arguments = []; argv = []; stdin = [] };
  session_hint = codes "c";
}

built_forward_example :
    ((forward silent built.forwarder asked).1 ≢ err no_transport)
    × ((e : Inadmissible) → (forward silent built.forwarder asked).1 ≢ err (inadmissible e))
built_forward_example =
    built_forward (codes "gateway") dial (some credential) provisioning built silent asked hardened
