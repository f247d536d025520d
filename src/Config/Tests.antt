-- ===== src/Config/Tests.antt =====
-- Runs of internal/config, and the properties at concrete files.
use ocu_mcp_gateway.Base.{◌≡◌, refl, true, [], ◌∷◌, none, some, ok, err, Str, codes, str_eq, pos}
use ocu_mcp_gateway.Auth.{active, StaticKeySet}
use ocu_mcp_gateway.Config.KeySet.{
  Source, FileKeySetLoader, KeyRecordWire, load, to_records, to_record, foreign_deployment,
}
use ocu_mcp_gateway.Config.Provisioning.{
  ProvisioningWire, load_provisioning_policy, profile_from_wire, mounts_from_wire,
}
use ocu_mcp_gateway.Forward.Session.{ProvisioningPolicy}

abbrev wire_record : KeyRecordWire
wire_record = record {
  key_id = codes "k";
  key_hash = codes "ff";
  salt = codes "00";
  tenant = codes "t";
  deployment = codes "d";
  status = codes "active";
  expires_at = [];
  created_at = [];
}

abbrev file : Source
file = record {
  read_file = λ path. some path;
  validate = λ raw. true;
  parse = λ raw. some (record { version = 1; records = wire_record ∷ [] });
  parse_time = λ s. none;
}

abbrev loader : Str → FileKeySetLoader
loader deployment = record { path = codes "/keys"; deployment = deployment }

abbrev keys : StaticKeySet
keys = record {
  records =
      record {
        key_id = codes "k";
        key_hash = codes "ff";
        salt = codes "00";
        tenant = codes "t";
        deployment = codes "d";
        expires_at = 0;
        status = active;
      }
      ∷ [];
  deployment = codes "d";
}

loaded : load file (loader (codes "d")) ≡ ok keys
unfolding load to_records to_record codes str_eq
loaded = refl

foreign : load file (loader (codes "e")) ≡ err foreign_deployment
unfolding load to_records to_record codes str_eq
foreign = refl

abbrev wire : ProvisioningWire
wire = record {
  workload_trust_profile = codes "internal_workforce";
  mount_intent = none;
  mount_intents = [];
  egress_policy = record { default_deny = true; allowed_upstream = []; filesystem_id = [] };
  resource_caps = record { cpu_cores = 0; memory_bytes = pos 0; pids_limit = none };
  exec_timeout_seconds = 0;
}

abbrev policy : ProvisioningPolicy
policy = record {
  workload_trust_profile = pos 2;
  mount_intents = [];
  egress_policy = wire.egress_policy;
  resource_caps = wire.resource_caps;
  exec_timeout_seconds = 0;
}

provisioned : load_provisioning_policy some (λ raw. some wire) (codes "/p") ≡ ok policy
unfolding load_provisioning_policy profile_from_wire mounts_from_wire codes str_eq
provisioned = refl
