-- ===== src/Ingress/ResolveOnly.antt =====
-- internal/ingress/resolveonly.go: credentials confined to the resolve_scope tool, compiled to
-- bindings of the authorization policy. The set of restricted ids is the list of its members.
pub mod Confinement
use ocu_mcp_gateway.Base.{
  trim_space, ℕ, Bool, true, false, List, [], ◌∷◌, ◌||◌, ◌==◌, if◌then◌else◌, Str, str_eq, codes,
  is_empty, any, Map, lookup, insert, has_key,
}
use ocu_mcp_gateway.Authz.Policy.{ToolRule, Profile, Policy}

abbrev pub resolve_scope_tool_name : Str
resolve_scope_tool_name = codes "resolve_scope"

abbrev pub resolve_only_profile_name : Str
resolve_only_profile_name = codes "resolve-only"

pub record ResolveOnlyPolicy : Type 0 where
  pub members : List Str

abbrev pub onto_first : ℕ → List Str → List Str
onto_first c [] = []
onto_first c (w ∷ ws) = (c ∷ w) ∷ ws

-- `strings.Split` at a separator of one byte.
unfoldable pub split : ℕ → Str → List Str
split sep [] = [] ∷ []
split sep (c ∷ s) = let rest = split sep s in if c == sep then [] ∷ rest else onto_first c rest

-- The loop over the parts.
unfoldable pub trimmed : List Str → List Str
unfolding trim_space
trimmed [] = []
trimmed (w ∷ ws) =
    let rest = trimmed ws in if is_empty (trim_space w) then rest else trim_space w ∷ rest

unfoldable pub new_resolve_only_policy : Str → ResolveOnlyPolicy
unfolding split trimmed
new_resolve_only_policy key_ids = record { members = trimmed (split b',' key_ids) }

abbrev pub is_restricted : ResolveOnlyPolicy → Str → Bool
is_restricted r key_id = any (λ id. str_eq id key_id) r.members

abbrev pub resolve_only_profile : Profile
resolve_only_profile = record {
  tools = (resolve_scope_tool_name, record { path_prefixes = [] }) ∷ [];
}

unfoldable pub add_profile : Map Profile → Map Profile
add_profile profiles =
    if has_key resolve_only_profile_name profiles
    then profiles
    else insert resolve_only_profile_name resolve_only_profile profiles

-- The loop over the restricted ids.
unfoldable pub bind_members : List Str → Map Str → Map Str
bind_members [] callers = callers
bind_members (id ∷ ids) callers =
    bind_members ids
      (if has_key id callers then callers else insert id resolve_only_profile_name callers)

unfoldable pub compile_resolve_only : Policy → ResolveOnlyPolicy → Policy
compile_resolve_only p r =
    if is_empty r.members
    then p
    else record p { profiles = add_profile p.profiles; callers = bind_members r.members p.callers }
