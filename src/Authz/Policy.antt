-- ===== src/Authz/Policy.antt =====
-- internal/authz/policy.go, the policy and ProfileFor, and internal/authz/decide.go, Decide.
-- An error carries the values that the source formats into its message.
pub mod Permits
use ocu_mcp_gateway.Base.{
  ℕ, Bool, true, false, not, List, [], ◌∷◌, Option, none, some, if◌then◌else◌, Str, codes, is_empty,
  Map, lookup, Result, ok, err,
}
use ocu_mcp_gateway.Authz.Paths.{path_under_any_prefix}

pub record ToolRule : Type 0 where
  pub path_prefixes : List Str

pub record Profile : Type 0 where
  pub tools : Map ToolRule

pub record Policy : Type 0 where
  pub version : ℕ
  pub profiles : Map Profile
  pub callers : Map Str
  pub default_profile : Str

-- What Decide reports beside ErrDenied.
pub data Denial : Type 0 where
  no_policy : Denial
  unknown_profile : (profile : Str) → Denial
  tool_not_granted : (profile tool : Str) → Denial
  path_unevaluable : (tool : Str) → Denial
  path_out_of_scope : (profile tool : Str) → Denial

-- An argument value, as far as the evaluator distinguishes them.
pub data Value : Type 0 where
  text : Str → Value
  other : Value

abbrev or_default : Str → Option Str → Str
or_default d none = d
or_default d (some name) = name

unfoldable pub profile_for : Policy → Str → Str
profile_for p caller_id = or_default p.default_profile (lookup caller_id p.callers)

abbrev pub path_key : Str
path_key = b'p' ∷ b'a' ∷ b't' ∷ b'h' ∷ []

-- `raw, ok := args["path"].(string)` with `!ok || raw == ""`.
abbrev pub readable_path : Option Value → Option Str
readable_path none = none
readable_path (some other) = none
readable_path (some (text [])) = none
readable_path (some (text (c ∷ s))) = some (c ∷ s)

abbrev check_path : Str → Str → List Str → Option Str → Result Denial (Unit {0})
check_path profile tool prefixes none = err (path_unevaluable tool)
check_path profile tool prefixes (some raw) =
    if path_under_any_prefix raw prefixes then ok tt else err (path_out_of_scope profile tool)

abbrev check_rule : Str → Str → Map Value → Option ToolRule → Result Denial (Unit {0})
check_rule profile tool args none = err (tool_not_granted profile tool)
check_rule profile tool args (some rule) =
    if is_empty rule.path_prefixes
    then ok tt
    else check_path profile tool rule.path_prefixes (readable_path (lookup path_key args))

abbrev check_profile : Str → Str → Map Value → Option Profile → Result Denial (Unit {0})
check_profile name tool args none = err (unknown_profile name)
check_profile name tool args (some profile) = check_rule name tool args (lookup tool profile.tools)

unfoldable pub decide : Policy → Str → Str → Map Value → Result Denial (Unit {0})
decide p caller_id tool args =
    if is_empty p.profiles
    then err no_policy
    else (let name = profile_for p caller_id in
        check_profile name tool args (lookup name p.profiles))
