-- ===== src/Options.antt =====
-- cmd/ocu-mcp-gatewayd/main.go, options and parseOptions: the flags of the daemon, parsed, and the
-- values of those that are not given. An interval is a number of nanoseconds.
use ocu_mcp_gateway.Base.{ℕ, ◌*◌, ◌^◌, Bool, false, List, [], Str, codes, ℤ, pos}

pub record Options : Type 0 where
  pub version : Bool
  pub health_check : Bool
  pub listen_addr : Str
  pub boot_set_path : Str
  pub identity : Str
  pub control_url : Str
  pub conn_ceiling : ℤ
  pub allowed_origins : List Str
  pub audit_bus : Str
  pub audit_sink : Str
  pub serialize_depth : ℤ
  pub deployment : Str
  pub refresh_interval : ℤ
  pub resolve_only_key_ids : Str
  pub authz_policy_path : Str
  pub service_credential_file : Str
  pub provisioning_policy : Str
  pub control_ca : Str
  pub control_client_cert : Str
  pub control_client_key : Str

abbrev pub minute : ℕ
minute = 60 * 10 ^ 9

-- The values of the flags that are not given.
abbrev pub default_options : Options
default_options = record {
  version = false;
  health_check = false;
  listen_addr = codes "127.0.0.1:8080";
  boot_set_path = [];
  identity = codes "ocu-mcp-gateway";
  control_url = [];
  conn_ceiling = pos 64;
  allowed_origins = [];
  audit_bus = [];
  audit_sink = [];
  serialize_depth = pos 64;
  deployment = [];
  refresh_interval = pos (2 * minute);
  resolve_only_key_ids = [];
  authz_policy_path = [];
  service_credential_file = [];
  provisioning_policy = [];
  control_ca = [];
  control_client_cert = [];
  control_client_key = [];
}
