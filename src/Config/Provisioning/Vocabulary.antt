-- ===== src/Config/Provisioning/Vocabulary.antt =====
-- internal/config/provisioning.go: what a provisioning policy that loads is.
use ocu_mcp_gateway.Base.{
  ◌≡◌, ◌⊎◌, inl, inr, refl, true, List, [], ◌∷◌, Option, none, some, Str, codes, str_eq_iff,
  is_empty, ok, arith, Option-cases, Result-cases, ℤ, pos,
}
use ocu_mcp_gateway.Forward.Session.{MountIntent, ProvisioningPolicy}
use ocu_mcp_gateway.Config.Provisioning.{
  ProvisioningWire, profile_from_wire, mounts_from_wire, load_provisioning_policy,
}

-- What the file said, as the policy holds it.
pub record IsFrom (wire : ProvisioningWire) (p : ProvisioningPolicy) : Type 0 where
  pub profile :
      ((wire.workload_trust_profile ≡ codes "trusted_operator")
        × (p.workload_trust_profile ≡ pos 1))
      ⊎ ((wire.workload_trust_profile ≡ codes "internal_workforce")
          × (p.workload_trust_profile ≡ pos 2))
  pub mounts :
      ((wire.mount_intent ≡ none) × (p.mount_intents ≡ wire.mount_intents))
      ⊎ ((m : MountIntent) × (wire.mount_intent ≡ some m)
          × (wire.mount_intents ≡ [])
          × (p.mount_intents ≡ m ∷ []))
  pub egress : p.egress_policy ≡ wire.egress_policy
  pub caps : p.resource_caps ≡ wire.resource_caps
  pub timeout : p.exec_timeout_seconds ≡ wire.exec_timeout_seconds

profile_inv :
    (s : Str) (t : ℤ)
    → profile_from_wire s ≡ ok t
    → ((s ≡ codes "trusted_operator") × (t ≡ pos 1))
      ⊎ ((s ≡ codes "internal_workforce") × (t ≡ pos 2))
unfolding profile_from_wire
profile_inv s t e =
    ground
      (arith, str_eq_iff s (codes "trusted_operator"), str_eq_iff s (codes "internal_workforce"))

empty_inv : (ms : List MountIntent) → is_empty ms ≡ true → ms ≡ []
empty_inv [] e = refl
empty_inv (m ∷ ms) e = absurd (cc)

mounts_inv :
    (w : ProvisioningWire) (ms : List MountIntent)
    → mounts_from_wire w ≡ ok ms
    → ((w.mount_intent ≡ none) × (ms ≡ w.mount_intents))
      ⊎ ((m : MountIntent) × (w.mount_intent ≡ some m) × (w.mount_intents ≡ []) × (ms ≡ m ∷ []))
unfolding mounts_from_wire
mounts_inv w ms e = elim (Option-cases w.mount_intent) [
  | inl plural ↦ inl (plural, ground (arith, plural))
  | inr (m, singular) ↦
      let alone : w.mount_intents ≡ [] = empty_inv w.mount_intents (ground (arith, singular)) in
      inr (m, singular, alone, ground (arith, singular, alone))
]

-- A provisioning policy that loads is of a file whose trust profile is one of the two known words,
-- whose mounts are given in one of the two fields only, and it holds what that file says.
pub load_provisioning_policy-IsFrom :
    (read_file : Str → Option Str) (decode : Str → Option ProvisioningWire) (path : Str)
    (p : ProvisioningPolicy)
    → load_provisioning_policy read_file decode path ≡ ok p
    → (raw : Str) × (wire : ProvisioningWire) × (read_file path ≡ some raw)
      × (decode raw ≡ some wire)
      × IsFrom wire p
unfolding load_provisioning_policy
load_provisioning_policy-IsFrom read_file decode path p e = elim (Option-cases (read_file path)) [
  | inl bad ↦ absurd (ground (arith, bad))
  | inr (raw, found) ↦ elim (Option-cases (decode raw)) [
    | inl bad ↦ absurd (ground (arith, found, bad))
    | inr (wire, decoded) ↦ elim (Result-cases (profile_from_wire wire.workload_trust_profile)) [
      | inl (t, known) ↦ elim (Result-cases (mounts_from_wire wire)) [
        | inl (ms, given) ↦ (
          raw,
          wire,
          found,
          decoded,
          record {
            profile = ground (
              arith,
              found,
              decoded,
              known,
              given,
              profile_inv wire.workload_trust_profile t known,
            );
            mounts = ground (arith, found, decoded, known, given, mounts_inv wire ms given);
            egress = ground (arith, found, decoded, known, given);
            caps = ground (arith, found, decoded, known, given);
            timeout = ground (arith, found, decoded, known, given);
          },
        )
        | inr (x, bad) ↦ absurd (ground (arith, found, decoded, known, bad))
      ]
      | inr (x, bad) ↦ absurd (ground (arith, found, decoded, bad))
    ]
  ]
]
