-- ===== src/Forward/Session.antt =====
-- internal/forward/session.go: the create request and its admission checks. A floating-point
-- number is the natural number of its 64 bits.
pub mod Admission
use ocu_mcp_gateway.Base.{
  ℕ, Bool, true, false, not, ◌&&◌, ◌||◌, ◌==◌, ltb, List, [], ◌∷◌, ◌++◌, Option, none, some,
  if◌then◌else◌, Str, codes, str_eq, is_empty, length, any, ℤ, pos, negsuc, Result, ok, err,
  refuse_if, ◌>>=◌, ◌>>◌,
}
use ocu_mcp_gateway.Auth.{Caller}

-- The closed int32 enumeration: 0 is unspecified, 1 trusted-operator, 2 internal-workforce.
abbrev pub WorkloadTrustProfile : Type 0
WorkloadTrustProfile = ℤ

abbrev pub is_valid_profile : WorkloadTrustProfile → Bool
is_valid_profile (pos n) = n == 1 || n == 2
is_valid_profile (negsuc n) = false

pub record MountIntent : Type 0 where
  pub destination : Str
  pub filesystem_id : Str
  pub memory_store_id : Str
  pub read_only : Bool
  pub cache_duration_s : ℕ

-- `(m.FilesystemID != "") != (m.MemoryStoreID != "")`.
abbrev pub xor : Bool → Bool → Bool
xor true b = not b
xor false b = b

abbrev pub scope_valid : MountIntent → Bool
scope_valid m = xor (not (is_empty m.filesystem_id)) (not (is_empty m.memory_store_id))

pub record EgressPolicy : Type 0 where
  pub default_deny : Bool
  pub allowed_upstream : Str
  pub filesystem_id : Str

pub record ResourceCaps : Type 0 where
  pub cpu_cores : ℕ
  pub memory_bytes : ℤ
  pub pids_limit : Option ℤ

pub record CreateRequest : Type 0 where
  pub workload_trust_profile : WorkloadTrustProfile
  pub mount_intents : List MountIntent
  pub egress_policy : EgressPolicy
  pub resource_caps : ResourceCaps
  pub session_hint : Str

pub record ProvisioningPolicy : Type 0 where
  pub workload_trust_profile : WorkloadTrustProfile
  pub mount_intents : List MountIntent
  pub egress_policy : EgressPolicy
  pub resource_caps : ResourceCaps
  pub exec_timeout_seconds : ℕ

-- The refusals of the admission checks, all of them ErrForwardFailed.
pub data Inadmissible : Type 0 where
  bad_profile no_mounts too_many_mounts bad_scope not_absolute duplicate_destination no_pids_limit :
      Inadmissible

abbrev pub timeout_default : ℕ
timeout_default = 30

abbrev pub timeout_min : ℕ
timeout_min = 1

abbrev pub timeout_max : ℕ
timeout_max = 300

abbrev pub clamp : ℕ → ℕ
clamp v = if ltb v timeout_min then timeout_min else if ltb timeout_max v then timeout_max else v

unfoldable pub clamp_exec_timeout : ℕ → ℕ
clamp_exec_timeout configured = clamp (if configured == 0 then timeout_default else configured)

abbrev pub build_create_request : ProvisioningPolicy → Str → CreateRequest
build_create_request policy hint = record {
  workload_trust_profile = policy.workload_trust_profile;
  mount_intents = policy.mount_intents;
  egress_policy = policy.egress_policy;
  resource_caps = policy.resource_caps;
  session_hint = hint;
}

unfoldable pub session_hint_for : Caller → Str → Str
session_hint_for principal chat_scope =
    if is_empty chat_scope then principal.tenant else principal.tenant ++ (b'/' ∷ chat_scope)

abbrev pub max_mount_intents : ℕ
max_mount_intents = 4

abbrev pub is_absolute : Str → Bool
is_absolute [] = false
is_absolute (c ∷ s) = c == b'/'

-- The loop over the mounts; `seen` holds the destinations before.
unfoldable pub check_mounts : List Str → List MountIntent → Result Inadmissible (Unit {0})
check_mounts seen [] = ok tt
check_mounts seen (m ∷ ms) =
    let rest = check_mounts (m.destination ∷ seen) ms in
    refuse_if (not (scope_valid m)) bad_scope
    >> refuse_if (not (is_absolute m.destination)) not_absolute
    >> refuse_if (any (str_eq m.destination) seen) duplicate_destination
    >> rest

unfoldable pub validate_mounts : List MountIntent → Result Inadmissible (Unit {0})
unfolding check_mounts
validate_mounts mounts = do
  refuse_if (is_empty mounts) no_mounts
  refuse_if (ltb max_mount_intents (length mounts)) too_many_mounts
  check_mounts [] mounts

abbrev pub is_unset : Option ℤ → Bool
is_unset none = true
is_unset (some n) = false

unfoldable pub validate : CreateRequest → Result Inadmissible (Unit {0})
unfolding validate_mounts
validate r = do
  refuse_if (not (is_valid_profile r.workload_trust_profile)) bad_profile
  validate_mounts r.mount_intents
  refuse_if (is_unset r.resource_caps.pids_limit) no_pids_limit
