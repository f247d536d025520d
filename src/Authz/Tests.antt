-- ===== src/Authz/Tests.antt =====
-- Runs of internal/authz and of CompileResolveOnly, and the properties at concrete inputs.
use ocu_mcp_gateway.Base.{
  ◌≡◌, ◌↔◌, refl, true, false, [], ◌∷◌, some, Str, codes, str_eq, has_prefix, Any, Map, lookup, ok,
  err, arith, is_empty,
}
use ocu_mcp_gateway.Authz.Paths.{clean, split, enter, walk, elements, path_under_any_prefix}
use ocu_mcp_gateway.Authz.Paths.Containment.{LiesUnder, path_under_any_prefix_iff}
use ocu_mcp_gateway.Authz.Policy.{
  Policy, Profile, Value, text, path_key, profile_for, decide, tool_not_granted,
}
use ocu_mcp_gateway.Authz.Policy.Permits.{Permits, decide_iff}
use ocu_mcp_gateway.Authz.Load.{Decoding, load}
use ocu_mcp_gateway.Authz.Load.Checks.{IsSound, load_iff}

abbrev home : Str
home = codes "/home/a/"

abbrev inside : Str
inside = codes "/home/./b/../a//x.txt"

abbrev outside : Str
outside = codes "/home/a/../../etc"

clean_inside : clean inside ≡ codes "/home/a/x.txt"
unfolding clean codes elements walk enter split str_eq
clean_inside = refl

escapes : path_under_any_prefix outside (home ∷ []) ≡ false
unfolding path_under_any_prefix clean codes elements walk enter split str_eq has_prefix
escapes = refl

-- The root prefix does not grant what lies below the root.
root_prefix : path_under_any_prefix (codes "/etc") (codes "/" ∷ []) ≡ false
unfolding path_under_any_prefix clean codes elements walk enter split str_eq has_prefix
root_prefix = refl

path_under_any_prefix_iff_example :
    (path_under_any_prefix inside (home ∷ []) ≡ true) ↔ Any (LiesUnder inside) (home ∷ [])
unfolding codes
path_under_any_prefix_iff_example = path_under_any_prefix_iff inside (home ∷ []) (refl, tt)

lies : LiesUnder inside home
unfolding codes elements walk enter split str_eq
lies = record {
  rooted = refl;
  more = codes "x.txt" ∷ [];
  continues = refl;
  at_root = λ e. absurd (cc);
}

abbrev reader : Profile
reader = record { tools = (codes "view", record { path_prefixes = home ∷ [] }) ∷ [] }

abbrev policy : Policy
policy = record {
  version = 1;
  profiles = (codes "full", reader) ∷ [];
  callers = (codes "k1", codes "full") ∷ [];
  default_profile = codes "full";
}

abbrev args : Map Value
args = (path_key, text inside) ∷ []

view_granted : decide policy (codes "k1") (codes "view") args ≡ ok tt
unfolding decide profile_for lookup codes path_under_any_prefix clean elements walk enter split
    str_eq has_prefix
view_granted = refl

shell_denied :
    decide policy (codes "k1") (codes "bash") args
    ≡ err (tool_not_granted (codes "full") (codes "bash"))
unfolding decide profile_for lookup codes str_eq
shell_denied = refl

decide_iff_example :
    (decide policy (codes "k1") (codes "view") args ≡ ok tt)
    ↔ Permits policy (codes "k1") (codes "view") args
unfolding profile_for lookup codes str_eq
decide_iff_example =
    decide_iff policy (codes "k1") (codes "view") args (λ profile rule d g. ground arith)

-- Documents that are the policy itself.
abbrev as_is : Decoding
as_is = record {
  Json = Str;
  compiled = true;
  unmarshal = λ raw. some raw;
  validate = λ inst. true;
  decode = λ raw. some policy;
}

load_iff_example : (load as_is (codes "x") (codes "view" ∷ []) ≡ ok policy) ↔ (
    (is_empty (codes "view" ∷ []) ≡ false)
    × (as_is.compiled ≡ true)
    × ((inst : Str) × (as_is.unmarshal (codes "x") ≡ some inst) × (as_is.validate inst ≡ true))
    × (as_is.decode (codes "x") ≡ some policy)
    × IsSound policy (codes "view" ∷ []))
load_iff_example = load_iff as_is (codes "x") (codes "view" ∷ []) policy
