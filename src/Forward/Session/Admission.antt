-- ===== src/Forward/Session/Admission.antt =====
-- internal/forward/session.go: which create requests are admitted, and the bounds of the timeout.
use ocu_mcp_gateway.Base.{
  ℕ, ◌≤◌, ◌<◌, ap, ◌≡◌, ◌≢◌, ◌↔◌, ◌⊎◌, inl, inr, refl, true, false, List, [], ◌∷◌, arith, Str,
  str_eq, str_eq_iff, All, length, is_empty, any, none, ok, pos, Bool-cases,
}
use ocu_mcp_gateway.Forward.Session.{
  MountIntent, CreateRequest, check_mounts, validate_mounts, validate, clamp_exec_timeout,
  is_absolute, scope_valid,
}

-- Exactly one of the two scopes is set, and the destination starts with a slash.
pub record Admissible (m : MountIntent) : Type 0 where
  pub one_scope :
      ((m.filesystem_id ≢ []) × (m.memory_store_id ≡ []))
      ⊎ ((m.filesystem_id ≡ []) × (m.memory_store_id ≢ []))
  pub rest : Str
  pub absolute : m.destination ≡ b'/' ∷ rest

-- No two elements are equal.
pub Distinct : List Str → Type 0
Distinct [] = Unit
Distinct (d ∷ ds) = All (λ e. e ≢ d) ds × Distinct ds

abbrev pub destinations : List MountIntent → List Str
destinations [] = []
destinations (m ∷ ms) = m.destination ∷ destinations ms

unseen_iff : (d : Str) (seen : List Str) → (any (str_eq d) seen ≡ false) ↔ All (λ s. d ≢ s) seen
unseen_iff d [] = ((λ e. tt), (λ h. refl))
unseen_iff d (s ∷ seen) = (
  (λ e. ((λ same. ground (arith, str_eq_iff d s)), (unseen_iff d seen).0 (ground arith))),
  (λ h. ground (arith, str_eq_iff d s, h.0, (unseen_iff d seen).1 h.1)),
)

is_empty_iff : (s : Str) → (is_empty s ≡ true) ↔ (s ≡ [])
is_empty_iff [] = ((λ e. refl), (λ e. refl))
is_empty_iff (c ∷ s) = ((λ e. absurd (cc)), (λ e. absurd (cc)))

one_scope_iff :
    (m : MountIntent)
    → (scope_valid m ≡ true) ↔ (
        ((m.filesystem_id ≢ []) × (m.memory_store_id ≡ []))
        ⊎ ((m.filesystem_id ≡ []) × (m.memory_store_id ≢ [])))
one_scope_iff m = elim (Bool-cases (is_empty m.filesystem_id)) [
  | inl f ↦ ground (arith, f, is_empty_iff m.filesystem_id, is_empty_iff m.memory_store_id)
  | inr f ↦ ground (arith, f, is_empty_iff m.filesystem_id, is_empty_iff m.memory_store_id)
]

absolute : (d : Str) → is_absolute d ≡ true → (rest : Str) × (d ≡ b'/' ∷ rest)
absolute [] e = absurd (cc)
absolute (c ∷ s) e = (s, ap (λ x. x ∷ s) (ground arith))

absolute_of : (d rest : Str) → d ≡ b'/' ∷ rest → is_absolute d ≡ true
absolute_of d rest e = rw e refl

distinct_of_seen :
    (d : Str) (seen ds : List Str)
    → All (λ e. All (λ s. e ≢ s) (d ∷ seen)) ds
    → All (λ e. e ≢ d) ds × All (λ e. All (λ s. e ≢ s) seen) ds
distinct_of_seen d seen [] h = (tt, tt)
distinct_of_seen d seen (e ∷ ds) h =
    let (a, b) = distinct_of_seen d seen ds h.1 in ((h.0.0, a), (h.0.1, b))

seen_of_distinct :
    (d : Str) (seen ds : List Str)
    → All (λ e. e ≢ d) ds
    → All (λ e. All (λ s. e ≢ s) seen) ds
    → All (λ e. All (λ s. e ≢ s) (d ∷ seen)) ds
seen_of_distinct d seen [] a b = tt
seen_of_distinct d seen (e ∷ ds) a b = ((a.0, b.0), seen_of_distinct d seen ds a.1 b.1)

check_mounts_sound :
    (seen : List Str) (ms : List MountIntent)
    → check_mounts seen ms ≡ ok tt
    → All Admissible ms
      × Distinct (destinations ms)
      × All (λ e. All (λ s. e ≢ s) seen) (destinations ms)
unfolding check_mounts Distinct
check_mounts_sound seen [] h = (tt, tt, tt)
check_mounts_sound seen (m ∷ ms) h =
    let (admitted, distinct, unseen) =
      check_mounts_sound (m.destination ∷ seen) ms (ground arith) in
    let (others, older) = distinct_of_seen m.destination seen (destinations ms) unseen in
    let (rest, from_root) = absolute m.destination (ground arith) in
    let here : Admissible m = record {
      one_scope = (one_scope_iff m).0 (ground arith);
      rest = rest;
      absolute = from_root;
    } in
    (
      (here, admitted),
      (others, distinct),
      ((unseen_iff m.destination seen).0 (ground arith), older),
    )

check_mounts_complete :
    (seen : List Str) (ms : List MountIntent)
    → All Admissible ms
    → Distinct (destinations ms)
    → All (λ e. All (λ s. e ≢ s) seen) (destinations ms)
    → check_mounts seen ms ≡ ok tt
unfolding check_mounts Distinct
check_mounts_complete seen [] a d u = refl
check_mounts_complete seen (m ∷ ms) a d u = ground (
  arith,
  (one_scope_iff m).1 a.0.one_scope,
  absolute_of m.destination a.0.rest a.0.absolute,
  (unseen_iff m.destination seen).1 u.0,
  check_mounts_complete (m.destination ∷ seen) ms a.1 d.1
      (seen_of_distinct m.destination seen (destinations ms) d.0 u.1),
)

none_seen : (ds : List Str) → All (λ e. All (λ s. e ≢ s) []) ds
none_seen [] = tt
none_seen (d ∷ ds) = (tt, none_seen ds)

-- A create request passes exactly if its trust profile is one of the two known ones, it has
-- between one and four mounts, each with exactly one scope and an absolute destination, no two
-- with the same destination, and a limit of processes is set.
pub validate_iff :
    (r : CreateRequest)
    → (validate r ≡ ok tt) ↔ (
        ((r.workload_trust_profile ≡ pos 1) ⊎ (r.workload_trust_profile ≡ pos 2))
        × (1 ≤ length r.mount_intents)
        × (length r.mount_intents ≤ 4)
        × All Admissible r.mount_intents
        × Distinct (destinations r.mount_intents)
        × (r.resource_caps.pids_limit ≢ none))
unfolding validate validate_mounts
validate_iff r = (
  (λ e.
      let (admitted, distinct, unseen) = check_mounts_sound [] r.mount_intents (ground arith) in
      (ground arith, ground arith, ground arith, admitted, distinct, ground arith)),
  (λ (p, l, u, a, d, n). ground (
    arith,
    check_mounts_complete [] r.mount_intents a d (none_seen (destinations r.mount_intents)),
  )),
)

-- Whatever the deployment configures, the timeout that is sent is between 1 and 300 seconds: it is the
-- configured one, or 30 where that is 0, or 300 where that is above 300.
pub clamp_exec_timeout_bounds :
    (configured : ℕ)
    → (1 ≤ clamp_exec_timeout configured)
      × (clamp_exec_timeout configured ≤ 300)
      × ((clamp_exec_timeout configured ≡ configured)
          ⊎ ((configured ≡ 0) × (clamp_exec_timeout configured ≡ 30))
          ⊎ ((300 < configured) × (clamp_exec_timeout configured ≡ 300)))
unfolding clamp_exec_timeout
clamp_exec_timeout_bounds configured = ground arith
