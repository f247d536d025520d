-- ===== src/Ingress/Tests.antt =====
-- The properties of internal/ingress at concrete inputs.
use ocu_mcp_gateway.Base.{◌≡◌, refl, inl, List, [], ◌∷◌, Str, codes, str_eq, lookup}
use ocu_mcp_gateway.Authz.Policy.{Policy, Profile, decide}
use ocu_mcp_gateway.Authz.Load.Checks.{IsSound}
use ocu_mcp_gateway.Ingress.ResolveOnly.{ResolveOnlyPolicy, compile_resolve_only}
use ocu_mcp_gateway.Ingress.ResolveOnly.Confinement.{others_unaffected}

abbrev shell : Profile
shell = record { tools = (codes "bash_tool", record { path_prefixes = [] }) ∷ [] }

abbrev policy : Policy
policy = record {
  version = 1;
  profiles = (codes "full", shell) ∷ [];
  callers = [];
  default_profile = codes "full";
}

abbrev advertised : List Str
advertised = codes "bash_tool" ∷ codes "resolve_scope" ∷ []

policy-IsSound : IsSound policy advertised
unfolding lookup codes str_eq
policy-IsSound = record {
  default_declared = refl;
  bindings_declared = tt;
  tools_served = ((inl refl, tt), tt);
}

abbrev portal : ResolveOnlyPolicy
portal = record { members = codes "portal" ∷ [] }

others_unaffected_example :
    decide (compile_resolve_only policy portal) (codes "k1") (codes "bash_tool") []
    ≡ decide policy (codes "k1") (codes "bash_tool") []
unfolding codes str_eq
others_unaffected_example =
    others_unaffected policy advertised portal (codes "k1") (codes "bash_tool") [] policy-IsSound
      (inl refl)
