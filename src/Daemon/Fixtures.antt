-- ===== src/Daemon/Fixtures.antt =====
-- A host and options, and the daemon that they make.
use ocu_mcp_gateway.Base.{
  leading_spaces, blanked, reverse_onto, trim_space, ℕ, ◌+◌, ◌*◌, ◌%◌, ◌≡◌, refl, true, false, [],
  ◌∷◌, none, some, Str, codes, str_eq, lookup, insert, pos, ok,
}
use ocu_mcp_gateway.Auth.{active, KeyRecord, StaticKeySet}
use ocu_mcp_gateway.Authz.Policy.{Policy}
use ocu_mcp_gateway.Authz.Load.{Decoding, cross_check, check_callers, unserved, unserved_in, served}
use ocu_mcp_gateway.Authz.Load
use ocu_mcp_gateway.Boot.{load}
use ocu_mcp_gateway.Config.KeySet.{Source, to_records, to_record}
use ocu_mcp_gateway.Config.KeySet
use ocu_mcp_gateway.Config.Provisioning.{
  ProvisioningWire, load_provisioning_policy, profile_from_wire, mounts_from_wire,
}
use ocu_mcp_gateway.Forward.Session.{ProvisioningPolicy, validate, validate_mounts, check_mounts}
use ocu_mcp_gateway.Forward.Dial.{
  new_file_service_credential, read_token, new_control_forwarder_with_dial,
}
use ocu_mcp_gateway.Ingress.Exchange.{new_origin_policy}
use ocu_mcp_gateway.Ingress.ResolveOnly.{
  new_resolve_only_policy, split, trimmed, compile_resolve_only,
}
use ocu_mcp_gateway.Quota.{new_ceiling}
use ocu_mcp_gateway.Serialize.{new_serializer}
use ocu_mcp_gateway.Daemon.{
  Host, Daemon, check_options, load_boot_set, build_forwarder, load_policy, open_sink, bus, serve,
}
use ocu_mcp_gateway.Options.{Options, default_options, minute}

unfoldable pub sum : Str → ℕ
sum [] = 0
sum (b ∷ s) = b + sum s

-- A digest of one byte.
abbrev pub checksum : Str → Str
checksum s = sum s % 256 ∷ []

abbrev pub file : Source
file = record {
  read_file = λ path. some path;
  validate = λ raw. true;
  parse = λ raw. some (record {
    version = 1;
    records =
        record {
          key_id = codes "k1";
          key_hash = codes "cb";
          salt = codes "0a0b";
          tenant = codes "t";
          deployment = codes "d";
          status = codes "active";
          expires_at = [];
          created_at = [];
        }
        ∷ [];
  });
  parse_time = λ s. none;
}

abbrev pub minted : KeyRecord
minted = record {
  key_id = codes "k1";
  key_hash = codes "cb";
  salt = codes "0a0b";
  tenant = codes "t";
  deployment = codes "d";
  expires_at = 0;
  status = active;
}

abbrev pub keys : StaticKeySet
keys = record { records = minted ∷ []; deployment = codes "d" }

abbrev pub wire : ProvisioningWire
wire = record {
  workload_trust_profile = codes "internal_workforce";
  mount_intent = none;
  mount_intents =
      record {
        destination = codes "/in";
        filesystem_id = codes "fs";
        memory_store_id = [];
        read_only = true;
        cache_duration_s = 0;
      }
      ∷ [];
  egress_policy = record { default_deny = true; allowed_upstream = []; filesystem_id = codes "fs" };
  resource_caps = record { cpu_cores = 0; memory_bytes = pos 0; pids_limit = some (pos 64) };
  exec_timeout_seconds = 0;
}

abbrev pub provisioning : ProvisioningPolicy
provisioning = record {
  workload_trust_profile = pos 2;
  mount_intents = wire.mount_intents;
  egress_policy = wire.egress_policy;
  resource_caps = wire.resource_caps;
  exec_timeout_seconds = 0;
}

abbrev pub baseline : Policy
baseline = record {
  version = 1;
  profiles =
      (
        codes "p",
        record { tools = (codes "view", record { path_prefixes = codes "/home/" ∷ [] }) ∷ [] },
      )
      ∷ [];
  callers = [];
  default_profile = codes "p";
}

abbrev pub decoding : Decoding
decoding = record {
  Json = Str;
  compiled = true;
  unmarshal = λ raw. some raw;
  validate = λ inst. true;
  decode = λ raw. some baseline;
}

abbrev pub host : Host
host = record {
  source = file;
  material = record {
    read_file = λ path. some path;
    has_pem = λ pem. true;
    load_pair = λ cert key. true;
  };
  decode_provisioning = λ raw. some wire;
  validator_builds = true;
  authz = decoding;
  read_policy = λ path. none;
  baseline = [];
  tool_names = codes "view" ∷ [];
  open_audit = λ path. some (record { content = []; durable = 0; directory_syncs = true });
  listen = λ addr. true;
}

abbrev pub options : Options
options = record default_options {
  boot_set_path = codes "/keys";
  deployment = codes "d";
  service_credential_file = codes "/token";
  provisioning_policy = codes "/policy";
}

abbrev pub daemon : Daemon
daemon = record {
  sequencer = record { keys = some keys; ready = true };
  credential = record { path = codes "/token"; principal = codes "ocu-mcp-gateway" };
  forwarder = record {
    identity = codes "ocu-mcp-gateway";
    forwarder = record { endpoint = []; has_tls = false; provisioning = provisioning };
    tls = none;
  };
  ceiling = record { limit = pos 64; counts = [] };
  origins = [];
  policy = baseline;
  sink = bus (record { endpoint = [] });
  serializer = record { max_depth = pos 64; parallel = none; heap = []; gates = [] };
  address = codes "127.0.0.1:8080";
  interval = pos (2 * minute);
}

pub serving : serve host options ≡ ok daemon
unfolding serve check_options load_boot_set KeySet.load to_records to_record load build_forwarder
    new_file_service_credential read_token trim_space leading_spaces blanked reverse_onto
    load_provisioning_policy profile_from_wire mounts_from_wire new_control_forwarder_with_dial
    validate validate_mounts check_mounts load_policy Load.load cross_check check_callers unserved
    unserved_in served compile_resolve_only new_resolve_only_policy split trimmed open_sink
    new_origin_policy new_ceiling new_serializer codes str_eq lookup insert
serving = refl
