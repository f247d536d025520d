-- ===== src/Ingress/ResolveOnly/Confinement.antt =====
-- internal/ingress/resolveonly.go: what CompileResolveOnly does to the callers' permissions.
use ocu_mcp_gateway.Base.{
  ◌≡◌, ◌↔◌, ◌⊎◌, inl, inr, refl, sym, subst, true, false, List, [], ◌∷◌, arith, Str, str_eq,
  str_eq_iff, All, All-impl, Any, Map, lookup, insert, lookup-insert, Option, none, some, ok,
  Option-cases, Bool-cases, is_empty, if◌then◌else◌, has_key, is_some, any,
}
use ocu_mcp_gateway.Authz.Policy.{Profile, Policy, Value, profile_for, decide}
use ocu_mcp_gateway.Authz.Policy.Permits.{is_empty-lookup}
use ocu_mcp_gateway.Authz.Load.Checks.{IsSound}
use ocu_mcp_gateway.Ingress.ResolveOnly.{
  resolve_scope_tool_name, resolve_only_profile_name, ResolveOnlyPolicy, is_restricted,
  resolve_only_profile, add_profile, bind_members, compile_resolve_only,
}

-- A binding that exists stays, and a restricted id without one gets the profile.
lookup-bind_members :
    (ids : List Str) (callers : Map Str) (j : Str)
    → lookup j (bind_members ids callers) ≡ (
        if has_key j callers
        then lookup j callers
        else if any (λ id. str_eq id j) ids
        then some resolve_only_profile_name
        else none)
unfolding bind_members
lookup-bind_members [] callers j = ground arith
lookup-bind_members (id ∷ ids) callers j = ground (
  arith,
  lookup-bind_members ids callers j,
  lookup-bind_members ids (insert id resolve_only_profile_name callers) j,
  lookup-insert id j resolve_only_profile_name callers,
  str_eq_iff id j,
)

lookup-add_profile :
    (profiles : Map Profile) (j : Str)
    → lookup j (add_profile profiles) ≡ (
        if has_key j profiles
        then lookup j profiles
        else if str_eq resolve_only_profile_name j
        then some resolve_only_profile
        else none)
unfolding add_profile
lookup-add_profile profiles j = ground (
  arith,
  lookup-insert resolve_only_profile_name j resolve_only_profile profiles,
  str_eq_iff resolve_only_profile_name j,
)

All-insert :
    {V : Type 0} (P : V → Type 0) (k : Str) (v : V) (m : Map V)
    → P v
    → All (λ b. P b.1) m
    → All (λ b. P b.1) (insert k v m)
unfolding insert
All-insert P k v [] new old = (new, tt)
All-insert P k v ((j, w) ∷ m) new old = ground (arith, All-insert P k v m new old.1)

All-lookup :
    {V : Type 0} (P : V → Type 0) (k : Str) (m : Map V) (v : V)
    → All (λ b. P b.1) m
    → lookup k m ≡ some v
    → P v
unfolding lookup
All-lookup P k [] v h e = absurd (cc)
All-lookup P k ((j, w) ∷ m) v h e = elim (Bool-cases (str_eq j k)) [
  | inl hit ↦ let same : w ≡ v = ground arith in subst P same h.0
  | inr miss ↦ All-lookup P k m v h.1 (rw miss at e)
]

-- In a sound policy every caller's profile is declared.
profile_for-declared :
    (p : Policy) (advertised : List Str) (c : Str)
    → IsSound p advertised
    → has_key (profile_for p c) p.profiles ≡ true
unfolding profile_for
profile_for-declared p advertised c s = elim (Option-cases (lookup c p.callers)) [
  | inl unbound ↦ rw unbound s.default_declared
  | inr (q, bound) ↦
      rw bound
        (All-lookup (λ q. has_key q p.profiles ≡ true) c p.callers q s.bindings_declared bound)
]

is_some-inv {ℓ} : {A : Type ℓ} (o : Option A) → is_some o ≡ true → (a : A) × (o ≡ some a)
is_some-inv none e = absurd (cc)
is_some-inv (some a) e = (a, refl)

-- Two policies that agree on a caller's profile decide alike for that caller.
decide_same :
    (p q : Policy) (c tool : Str) (args : Map Value) (profile : Profile)
    → profile_for p c ≡ profile_for q c
    → lookup (profile_for q c) p.profiles ≡ some profile
    → lookup (profile_for q c) q.profiles ≡ some profile
    → decide p c tool args ≡ decide q c tool args
unfolding decide
decide_same p q c tool args profile n e f = rw (
  n,
  is_empty-lookup (profile_for q c) p.profiles e,
  is_empty-lookup (profile_for q c) q.profiles f,
  e,
  f,
)

-- In a sound policy, a caller that is not restricted, or that the policy binds itself, is
-- decided as before.
pub others_unaffected :
    (p : Policy) (advertised : List Str) (r : ResolveOnlyPolicy) (c tool : Str) (args : Map Value)
    → IsSound p advertised
    → (is_restricted r c ≡ false) ⊎ (has_key c p.callers ≡ true)
    → decide (compile_resolve_only p r) c tool args ≡ decide p c tool args
unfolding compile_resolve_only
others_unaffected p advertised r c tool args s h = elim (Bool-cases (is_empty r.members)) [
  | inl nobody ↦ rw nobody
  | inr some' ↦
      let (profile, found) =
        is_some-inv (lookup (profile_for p c) p.profiles) (profile_for-declared p advertised c s) in
      rw some' (
        decide_same
          (record p {
            profiles = add_profile p.profiles;
            callers = bind_members r.members p.callers;
          })
          p c tool args profile
          (unfold profile_for in ground (arith, lookup-bind_members r.members p.callers c))
          (ground (arith, lookup-add_profile p.profiles (profile_for p c))) found)
]

decide_confined :
    (q : Policy) (c tool : Str) (args : Map Value)
    → profile_for q c ≡ resolve_only_profile_name
    → lookup resolve_only_profile_name q.profiles ≡ some resolve_only_profile
    → (decide q c tool args ≡ ok tt) ↔ (tool ≡ resolve_scope_tool_name)
unfolding decide lookup
decide_confined q c tool args n e =
    rw (n, is_empty-lookup resolve_only_profile_name q.profiles e, e)
      (elim (Bool-cases (str_eq resolve_scope_tool_name tool)) [
        | inl same ↦ rw same ((λ _. sym ((str_eq_iff _ _).0 same)), (λ _. refl))
        | inr other ↦
            rw other ((λ f. absurd (cc)), (λ f. absurd (cc (other, (str_eq_iff _ _).1 (sym f)))))
      ])

members-ne-nil :
    (ids : List Str) (c : Str) → any (λ id. str_eq id c) ids ≡ true → is_empty ids ≡ false
members-ne-nil [] c e = absurd (cc)
members-ne-nil (id ∷ ids) c e = refl

-- A restricted caller that the policy does not bind, where the policy has no profile of that
-- name, is granted the tool resolve_scope, whatever the arguments, and no other tool.
pub restricted_confined :
    (p : Policy) (r : ResolveOnlyPolicy) (c tool : Str) (args : Map Value)
    → is_restricted r c ≡ true
    → lookup c p.callers ≡ none
    → lookup resolve_only_profile_name p.profiles ≡ none
    → (decide (compile_resolve_only p r) c tool args ≡ ok tt) ↔ (tool ≡ resolve_scope_tool_name)
unfolding compile_resolve_only
restricted_confined p r c tool args h unbound undeclared =
    let q : Policy = record p {
      profiles = add_profile p.profiles;
      callers = bind_members r.members p.callers;
    } in
    rw (members-ne-nil r.members c h) (
      decide_confined q c tool args
        (unfold profile_for in ground (arith, lookup-bind_members r.members p.callers c))
        (ground (
          arith,
          lookup-add_profile p.profiles resolve_only_profile_name,
          str_eq_iff resolve_only_profile_name resolve_only_profile_name,
        )))

All-bind_members :
    (P : Str → Type 0) (ids : List Str) (callers : Map Str)
    → P resolve_only_profile_name
    → All (λ b. P b.1) callers
    → All (λ b. P b.1) (bind_members ids callers)
unfolding bind_members
All-bind_members P [] callers new old = old
All-bind_members P (id ∷ ids) callers new old = elim (Bool-cases (has_key id callers)) [
  | inl bound ↦ rw bound (All-bind_members P ids callers new old)
  | inr free ↦ rw free (
      All-bind_members P ids (insert id resolve_only_profile_name callers) new
        (All-insert P id resolve_only_profile_name callers new old))
]

All-add_profile :
    (P : Profile → Type 0) (profiles : Map Profile)
    → P resolve_only_profile
    → All (λ b. P b.1) profiles
    → All (λ b. P b.1) (add_profile profiles)
unfolding add_profile
All-add_profile P profiles new old =
    elim (Bool-cases (has_key resolve_only_profile_name profiles)) [
      | inl named ↦ rw named old
      | inr free ↦
          rw free (All-insert P resolve_only_profile_name resolve_only_profile profiles new old)
    ]

-- Compiling the flag keeps a policy sound if resolve_scope is advertised.
pub compile_resolve_only-IsSound :
    (p : Policy) (r : ResolveOnlyPolicy) (advertised : List Str)
    → Any (λ t. t ≡ resolve_scope_tool_name) advertised
    → IsSound p advertised
    → IsSound (compile_resolve_only p r) advertised
unfolding compile_resolve_only
compile_resolve_only-IsSound p r advertised a s = elim (Bool-cases (is_empty r.members)) [
  | inl nobody ↦ rw nobody s
  | inr some' ↦ rw some' (record {
    default_declared = declared p.default_profile s.default_declared;
    bindings_declared =
        All-bind_members (λ q. has_key q (add_profile p.profiles) ≡ true) r.members p.callers
          (ground (
            arith,
            lookup-add_profile p.profiles resolve_only_profile_name,
            str_eq_iff resolve_only_profile_name resolve_only_profile_name,
          ))
          (All-impl (λ b. has_key b.1 p.profiles ≡ true)
            (λ b. has_key b.1 (add_profile p.profiles) ≡ true) (λ b. declared b.1) p.callers
            s.bindings_declared);
    tools_served =
        All-add_profile (λ q. All (λ t. Any (λ u. u ≡ t.0) advertised) q.tools) p.profiles (a, tt)
          s.tools_served;
  })
]
  where
    declared : (n : Str) → has_key n p.profiles ≡ true → has_key n (add_profile p.profiles) ≡ true
    declared n e = ground (arith, lookup-add_profile p.profiles n)
