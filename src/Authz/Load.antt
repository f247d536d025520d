-- ===== src/Authz/Load.antt =====
-- internal/authz/policy.go, Load. The JSON decoder and the schema validator are parameters, and
-- so is whether the embedded schema compiles.
pub mod Checks
use mathlib.Core.List.{filter_map, flat_map}
use ocu_mcp_gateway.Base.{
  ℕ, Bool, true, false, not, List, [], ◌∷◌, ◌++◌, Option, none, some, if◌then◌else◌, Str, is_empty,
  Map, lookup, insert, has_key, Result, ok, err, refuse_if, ◌>>=◌, ◌>>◌,
}
use ocu_mcp_gateway.Authz.Policy.{ToolRule, Profile, Policy}

pub data Error : Type 0 where
  no_advertised_tools schema_unavailable not_json violates_schema not_decoded : Error
  undeclared_default : (profile : Str) → Error
  undeclared_binding : (caller profile : Str) → Error
  unserved_tools : List (Str × Str) → Error

-- `json.Unmarshal` into `any` and into a Policy, and the compiled schema.
pub record Decoding : Type 1 where
  pub Json : Type 0
  pub compiled : Bool
  pub unmarshal : Str → Option Json
  pub validate : Json → Bool
  pub decode : Str → Option Policy

abbrev pub or_error {ℓ} : {A : Type ℓ} → Error → Option A → Result Error A
or_error e none = err e
or_error e (some a) = ok a

-- The loop over the caller bindings.
unfoldable pub check_callers : Map Profile → Map Str → Result Error (Unit {0})
check_callers profiles [] = ok tt
check_callers profiles ((caller, profile) ∷ callers) =
    if has_key profile profiles
    then check_callers profiles callers
    else err (undeclared_binding caller profile)

-- The set that Load builds from the advertised names.
unfoldable pub served : List Str → Map Bool
served [] = []
served (t ∷ ts) = insert t true (served ts)

-- The rules of one profile, and of all, that name a tool out of the set.
unfoldable pub unserved_in : Map Bool → Str → Map ToolRule → List (Str × Str)
unserved_in set name [] = []
unserved_in set name ((tool, rule) ∷ tools) =
    let rest = unserved_in set name tools in if has_key tool set then rest else (name, tool) ∷ rest

unfoldable pub unserved : Map Bool → Map Profile → List (Str × Str)
unfolding unserved_in
unserved set [] = []
unserved set ((name, profile) ∷ profiles) =
    unserved_in set name profile.tools ++ unserved set profiles

-- The checks of Load on a decoded policy. The source sorts the names in the last error.
unfoldable pub cross_check : Policy → List Str → Result Error Policy
unfolding check_callers served unserved
cross_check p advertised = do
  refuse_if (not (has_key p.default_profile p.profiles)) (undeclared_default p.default_profile)
  check_callers p.profiles p.callers
  refuse_if (not (is_empty (unserved (served advertised) p.profiles)))
      (unserved_tools (unserved (served advertised) p.profiles))
  ok p

module _ (d : Decoding) where
  unfoldable pub load : Str → List Str → Result Error Policy
  load raw advertised = do
    refuse_if (is_empty advertised) no_advertised_tools
    refuse_if (not d.compiled) schema_unavailable
    inst ← or_error not_json (d.unmarshal raw)
    refuse_if (not (d.validate inst)) violates_schema
    p ← or_error not_decoded (d.decode raw)
    cross_check p advertised
