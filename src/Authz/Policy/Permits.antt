-- ===== src/Authz/Policy/Permits.antt =====
-- internal/authz/decide.go: when Decide grants, and what a grant means for the path.
use ocu_mcp_gateway.Base.{
  ◌≡◌, ◌≢◌, ◌↔◌, ◌⊎◌, inl, inr, refl, Bool, true, false, List, [], ◌∷◌, arith, Str, All, Any, Map,
  lookup, Option, none, some, ok, Option-cases, is_empty, if◌then◌else◌,
}
use ocu_mcp_gateway.Authz.Paths.{is_rooted}
use ocu_mcp_gateway.Authz.Paths.Containment.{LiesUnder, path_under_any_prefix_iff}
use ocu_mcp_gateway.Authz.Policy.{
  ToolRule, Profile, Policy, Value, text, other, profile_for, path_key, readable_path, check_path,
  decide,
}

-- The argument `path` is a text that is not empty and lies under a prefix.
pub record HasPathUnder (prefixes : List Str) (args : Map Value) : Type 0 where
  pub raw : Str
  pub given : lookup path_key args ≡ some (text raw)
  pub nonempty : raw ≢ []
  pub lies : Any (LiesUnder raw) prefixes

-- The caller's profile is declared and has a rule for the tool, which has no prefixes or is met.
pub record Permits (p : Policy) (caller_id tool : Str) (args : Map Value) : Type 0 where
  pub profile : Profile
  pub rule : ToolRule
  pub declared : lookup (profile_for p caller_id) p.profiles ≡ some profile
  pub granted : lookup tool profile.tools ≡ some rule
  pub within : (rule.path_prefixes ≡ []) ⊎ HasPathUnder rule.path_prefixes args

-- The schema's demand on prefixes, for the rule that a call meets.
abbrev pub RootedRule : Policy → Str → Str → Type 0
RootedRule p caller_id tool =
    (profile : Profile) (rule : ToolRule)
    → lookup (profile_for p caller_id) p.profiles ≡ some profile
    → lookup tool profile.tools ≡ some rule
    → All (λ prefix. is_rooted prefix ≡ true) rule.path_prefixes

pub is_empty-lookup {ℓ} :
    {V : Type ℓ} (k : Str) (m : Map V) {v : V} → lookup k m ≡ some v → is_empty m ≡ false
unfolding lookup
is_empty-lookup k [] e = absurd (cc)
is_empty-lookup k (x ∷ m) e = refl

readable_path-inv :
    (o : Option Value) (raw : Str) → readable_path o ≡ some raw → (o ≡ some (text raw)) × (raw ≢ [])
readable_path-inv none raw e = absurd (cc)
readable_path-inv (some other) raw e = absurd (cc)
readable_path-inv (some (text [])) raw e = absurd (cc)
readable_path-inv (some (text (c ∷ s))) raw e = ground arith

readable_path-text : (raw : Str) → raw ≢ [] → readable_path (some (text raw)) ≡ some raw
readable_path-text [] n = absurd (n refl)
readable_path-text (c ∷ s) n = refl

module _ (p : Policy) (caller_id tool : Str) (args : Map Value)
    (rooted : RootedRule p caller_id tool) where
  within_of_ok :
      (profile : Profile) (rule : ToolRule)
      → lookup (profile_for p caller_id) p.profiles ≡ some profile
      → lookup tool profile.tools ≡ some rule
      → decide p caller_id tool args ≡ ok tt
      → (rule.path_prefixes ≡ []) ⊎ HasPathUnder rule.path_prefixes args
  unfolding decide
  within_of_ok profile rule d g e = elim (Option-cases (readable_path (lookup path_key args))) [
    | inl unreadable ↦ inl (ground arith)
    | inr (raw, read) ↦ go (is_empty rule.path_prefixes) refl raw read
  ]
    where
      go :
          (b : Bool)
          → is_empty rule.path_prefixes ≡ b
          → (raw : Str) → readable_path (lookup path_key args) ≡ some raw
          → (rule.path_prefixes ≡ []) ⊎ HasPathUnder rule.path_prefixes args
      go true q raw read = inl (ground arith)
      go false q raw read =
          let (given, ne) = readable_path-inv (lookup path_key args) raw read in
          inr (record {
            raw = raw;
            given = given;
            nonempty = ne;
            lies =
                (path_under_any_prefix_iff raw rule.path_prefixes (rooted profile rule d g)).0
                  (ground arith);
          })

  Permits-decide : decide p caller_id tool args ≡ ok tt → Permits p caller_id tool args
  unfolding decide
  Permits-decide e = elim (Option-cases (lookup (profile_for p caller_id) p.profiles)) [
    | inl missing ↦ absurd (ground arith)
    | inr (profile, d) ↦ elim (Option-cases (lookup tool profile.tools)) [
      | inl ungranted ↦ absurd (ground arith)
      | inr (rule, g) ↦ record {
        profile = profile;
        rule = rule;
        declared = d;
        granted = g;
        within = within_of_ok profile rule d g e;
      }
    ]
  ]

  decide-Permits : Permits p caller_id tool args → decide p caller_id tool args ≡ ok tt
  unfolding decide
  decide-Permits w =
      rw (is_empty-lookup _ p.profiles w.declared, w.declared, w.granted)
        (go w.rule.path_prefixes w.within (rooted w.profile w.rule w.declared w.granted))
    where
      go :
          (prefixes : List Str)
          → (prefixes ≡ []) ⊎ HasPathUnder prefixes args
          → All (λ prefix. is_rooted prefix ≡ true) prefixes
          → (if is_empty prefixes
              then ok tt
              else check_path
                  (profile_for p caller_id)
                  tool
                  prefixes
                  (readable_path (lookup path_key args)))
            ≡ ok tt
      go [] h r = refl
      go (x ∷ xs) (inl e) r = absurd (cc)
      go (x ∷ xs) (inr h) r = rw (
        h.given,
        readable_path-text h.raw h.nonempty,
        (path_under_any_prefix_iff h.raw (x ∷ xs) r).1 h.lies,
      )

-- For a rule with absolute prefixes, Decide grants a call exactly if the caller's profile is
-- declared, has a rule for the tool, and the rule has no prefixes or the argument `path` is an
-- absolute path whose resolved elements continue those of one of the prefixes, where the prefix that
-- resolves to the root is continued by the root alone.
pub decide_iff :
    (p : Policy) (caller_id tool : Str) (args : Map Value)
    → RootedRule p caller_id tool
    → (decide p caller_id tool args ≡ ok tt) ↔ Permits p caller_id tool args
decide_iff p caller_id tool args rooted =
    (Permits-decide p caller_id tool args rooted, decide-Permits p caller_id tool args rooted)
