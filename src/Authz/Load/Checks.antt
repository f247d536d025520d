-- ===== src/Authz/Load/Checks.antt =====
-- internal/authz/policy.go, Load: what a loaded policy guarantees.
use ocu_mcp_gateway.Base.{
  ◌≡◌, ◌↔◌, inl, inr, refl, true, false, List, [], ◌∷◌, ◌++◌, arith, Str, str_eq, str_eq_iff, All,
  Any, Map, lookup, lookup-insert, some, ok, Option-cases, Bool-cases, is_empty, has_key,
}
use ocu_mcp_gateway.Authz.Policy.{ToolRule, Profile, Policy}
use ocu_mcp_gateway.Authz.Load.{
  Decoding, check_callers, served, unserved_in, unserved, cross_check, load,
}

-- The default profile and every bound profile are declared, and every rule names a tool that is
-- advertised.
pub record IsSound (p : Policy) (advertised : List Str) : Type 0 where
  pub default_declared : has_key p.default_profile p.profiles ≡ true
  pub bindings_declared : All (λ b. has_key b.1 p.profiles ≡ true) p.callers
  pub tools_served : All (λ q. All (λ r. Any (λ t. t ≡ r.0) advertised) q.1.tools) p.profiles

check_callers_iff :
    (profiles : Map Profile) (callers : Map Str)
    → (check_callers profiles callers ≡ ok tt) ↔ All (λ b. has_key b.1 profiles ≡ true) callers
unfolding check_callers
check_callers_iff profiles [] = ((λ _. tt), (λ _. refl))
check_callers_iff profiles ((c, q) ∷ callers) = (
  (λ e. ground (arith, check_callers_iff profiles callers)),
  (λ h. ground (arith, check_callers_iff profiles callers)),
)

served_iff :
    (tool : Str) (ts : List Str) → (has_key tool (served ts) ≡ true) ↔ Any (λ t. t ≡ tool) ts
unfolding served lookup
served_iff tool [] = ((λ e. absurd (cc)), (λ e. elim e [ ]))
served_iff tool (t ∷ ts) =
    let (to, from) = served_iff tool ts in
    (
      (λ e. elim (Bool-cases (str_eq t tool)) [
        | inl same ↦ inl ((str_eq_iff t tool).0 same)
        | inr other ↦ inr (to (ground (arith, lookup-insert t tool true (served ts))))
      ]),
      elim [
        | inl same ↦ ground (arith, lookup-insert t tool true (served ts), str_eq_iff t tool)
        | inr later ↦ ground (arith, from later, lookup-insert t tool true (served ts))
      ],
    )

nil-of-append : {A : Type 0} (xs ys : List A) → xs ++ ys ≡ [] → (xs ≡ []) × (ys ≡ [])
nil-of-append [] ys e = (refl, e)
nil-of-append (x ∷ xs) ys e = absurd (cc)

unserved_in_iff :
    (advertised : List Str) (name : Str) (tools : Map ToolRule)
    → (unserved_in (served advertised) name tools ≡ [])
      ↔ All (λ r. Any (λ t. t ≡ r.0) advertised) tools
unfolding unserved_in
unserved_in_iff advertised name [] = ((λ _. tt), (λ _. refl))
unserved_in_iff advertised name ((tool, rule) ∷ tools) =
    let (to, from) = unserved_in_iff advertised name tools in
    let (here, back) = served_iff tool advertised in
    (
      (λ e. elim (Bool-cases (has_key tool (served advertised))) [
        | inl found ↦ (here found, to (ground arith))
        | inr lost ↦ absurd (ground arith)
      ]),
      (λ h. ground (arith, back h.0, from h.1)),
    )

unserved_iff :
    (advertised : List Str) (profiles : Map Profile)
    → (unserved (served advertised) profiles ≡ [])
      ↔ All (λ q. All (λ r. Any (λ t. t ≡ r.0) advertised) q.1.tools) profiles
unfolding unserved
unserved_iff advertised [] = ((λ _. tt), (λ _. refl))
unserved_iff advertised ((name, profile) ∷ profiles) =
    let (to, from) = unserved_iff advertised profiles in
    let (here, back) = unserved_in_iff advertised name profile.tools in
    ((λ e. let (x, y) = nil-of-append _ _ e in (here x, to y)), (λ h. rw (back h.0, from h.1)))

cross_check-IsSound :
    (p q : Policy) (advertised : List Str)
    → cross_check p advertised ≡ ok q
    → (q ≡ p) × IsSound p advertised
unfolding cross_check
cross_check-IsSound p q advertised e = (
  ground arith,
  record {
    default_declared = ground arith;
    bindings_declared = (check_callers_iff p.profiles p.callers).0 (ground arith);
    tools_served = (unserved_iff advertised p.profiles).0 (ground arith);
  },
)

cross_check_complete :
    (p : Policy) (advertised : List Str) → IsSound p advertised → cross_check p advertised ≡ ok p
unfolding cross_check
cross_check_complete p advertised s = rw (
  s.default_declared,
  (check_callers_iff p.profiles p.callers).1 s.bindings_declared,
  (unserved_iff advertised p.profiles).1 s.tools_served,
)

-- A document is loaded exactly if some tool is advertised, the schema compiles, the document
-- is JSON that the schema admits and decodes to a policy, whose default profile and bound
-- profiles are declared and whose rules name advertised tools only. That policy is what is loaded.
pub load_iff :
    (d : Decoding) (raw : Str) (advertised : List Str) (p : Policy)
    → (load d raw advertised ≡ ok p) ↔ (
        (is_empty advertised ≡ false)
        × (d.compiled ≡ true)
        × ((inst : d.Json) × (d.unmarshal raw ≡ some inst) × (d.validate inst ≡ true))
        × (d.decode raw ≡ some p)
        × IsSound p advertised)
unfolding load
load_iff d raw advertised p = (
  (λ e. elim (Option-cases (d.unmarshal raw)) [
    | inl none' ↦ absurd (ground arith)
    | inr (inst, parsed) ↦ elim (Option-cases (d.decode raw)) [
      | inl none' ↦ absurd (ground arith)
      | inr (q, decoded) ↦
          let checked : cross_check q advertised ≡ ok p = ground arith in
          let (same, sound) = cross_check-IsSound q p advertised checked in
          (ground arith, ground arith, (inst, parsed, ground arith), rw same decoded, rw same sound)
    ]
  ]),
  (λ h. rw (h.0, h.1, h.2.1, h.2.2, h.3) (cross_check_complete p advertised h.4)),
)
