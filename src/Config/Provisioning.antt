-- ===== src/Config/Provisioning.antt =====
-- internal/config/provisioning.go: the provisioning policy of a file. The file system and the JSON
-- decoder are parameters.
pub mod Vocabulary
use ocu_mcp_gateway.Base.{
  ℕ, Bool, not, ◌&&◌, List, [], ◌∷◌, Option, none, some, is_some, if◌then◌else◌, Str, codes, str_eq,
  is_empty, ℤ, pos, Result, ok, err, refuse_if, ◌>>=◌, ◌>>◌, map,
}
use ocu_mcp_gateway.Forward.Session.{
  WorkloadTrustProfile, MountIntent, EgressPolicy, ResourceCaps, ProvisioningPolicy,
}

pub record ProvisioningWire : Type 0 where
  pub workload_trust_profile : Str
  pub mount_intent : Option MountIntent
  pub mount_intents : List MountIntent
  pub egress_policy : EgressPolicy
  pub resource_caps : ResourceCaps
  pub exec_timeout_seconds : ℕ

pub data LoadError : Type 0 where
  no_path unreadable bad_shape missing_profile unknown_profile both_mount_fields : LoadError

abbrev pub or_error {ℓ} : {A : Type ℓ} → LoadError → Option A → Result LoadError A
or_error e none = err e
or_error e (some a) = ok a

unfoldable pub profile_from_wire : Str → Result LoadError WorkloadTrustProfile
profile_from_wire s =
    if str_eq s (codes "trusted_operator")
    then ok (pos 1)
    else if str_eq s (codes "internal_workforce")
    then ok (pos 2)
    else if is_empty s
    then err missing_profile
    else err unknown_profile

abbrev pub entries_of : Option MountIntent → List MountIntent → List MountIntent
entries_of none entries = entries
entries_of (some e) entries = e ∷ []

unfoldable pub mounts_from_wire : ProvisioningWire → Result LoadError (List MountIntent)
mounts_from_wire wire =
    if is_some wire.mount_intent && not (is_empty wire.mount_intents)
    then err both_mount_fields
    else ok (entries_of wire.mount_intent wire.mount_intents)

unfoldable pub load_provisioning_policy :
    (Str → Option Str) → (Str → Option ProvisioningWire) → Str → Result LoadError ProvisioningPolicy
unfolding profile_from_wire mounts_from_wire
load_provisioning_policy read_file decode path = do
  refuse_if (is_empty path) no_path
  raw ← or_error unreadable (read_file path)
  wire ← or_error bad_shape (decode raw)
  profile ← profile_from_wire wire.workload_trust_profile
  mounts ← mounts_from_wire wire
  ok (record {
    workload_trust_profile = profile;
    mount_intents = mounts;
    egress_policy = wire.egress_policy;
    resource_caps = wire.resource_caps;
    exec_timeout_seconds = wire.exec_timeout_seconds;
  })
