-- ===== src/Ingress/Readers.antt =====
-- internal/ingress/handler.go and handshake.go: the readers of a request body. The syntax of JSON
-- is a parameter (`Decoder`); how encoding/json fills the fields of a struct is modelled: a member
-- goes to the field whose name it has but for case, members are taken in order, a later one
-- overwrites or merges, and a value of the wrong type leaves the field as it is.
pub mod Agreement
mod Tests
use ocu_mcp_gateway.Base.{
  ℕ, ◌+◌, Bool, true, false, not, ◌&&◌, ◌||◌, ◌==◌, leb, List, [], ◌∷◌, Option, none, some, is_some,
  if◌then◌else◌, Str, codes, str_eq, is_empty, has_prefix, drop, Map, insert, map,
}
use ocu_mcp_gateway.Authz.Policy.{Value, text, other}
use ocu_mcp_gateway.Forward.Calls.{ToolCall}
use ocu_mcp_gateway.Projection.{Scripts, project}

-- The members of the text of an object, in order, and the text of a string. A text that is not
-- valid JSON has neither.
pub record Decoder : Type 0 where
  pub members : Str → Option (List (Str × Str))
  pub string : Str → Option Str

abbrev pub to_lower : ℕ → ℕ
to_lower c = if leb b'A' c && leb c b'Z' then c + 32 else c

abbrev pub starts_with_two : ℕ → ℕ → Str → Bool
starts_with_two a b (c ∷ d ∷ s) = c == a && d == b
starts_with_two a b _ = false

abbrev pub starts_with_one : ℕ → Str → Bool
starts_with_one a (c ∷ s) = c == a
starts_with_one a [] = false

-- The folding of a name: ASCII case, and the two other characters that fold to ASCII ones, the
-- long s (bytes 197 and 191) and the Kelvin sign (226, 132, 170).
unfoldable pub fold_name : Str → Str
fold_name [] = []
fold_name (c ∷ s) =
    let rest = fold_name s in
    if c == 197 && starts_with_one 191 s
    then b's' ∷ drop 1 rest
    else if c == 226 && starts_with_two 132 170 s
    then b'k' ∷ drop 2 rest
    else to_lower c ∷ rest

abbrev pub is_null : Str → Bool
is_null v = str_eq v (codes "null")

-- The members that go to the field `key`, taken in order.
unfoldable pub collect {ℓ} : {S : Type ℓ} → Str → (Str → S → S) → List (Str × Str) → S → S
unfolding fold_name
collect key set [] s = s
collect key set ((k, v) ∷ ms) s =
    collect key set ms (if str_eq (fold_name k) key then set v s else s)

abbrev pub or_else {ℓ} : {A : Type ℓ} → Option A → A → A
or_else none d = d
or_else (some a) d = a

-- The arguments gathered for the policy: the map, and whether some value had the wrong type.
pub record Gathered : Type 0 where
  pub entries : Option (Map Str)
  pub failed : Bool

unfoldable pub insert_all : List (Str × Str) → Map Str → Map Str
insert_all [] m = m
insert_all ((k, v) ∷ ms) m = insert_all ms (insert k v m)

module _ (d : Decoder) where
  abbrev pub members_of : Str → List (Str × Str)
  members_of raw = or_else (d.members raw) []

  -- A string field: null and values of other types leave it.
  abbrev pub set_string : Str → Str → Str
  set_string v old = if is_null v then old else or_else (d.string v) old

  unfoldable pub method_from : Str → Str
  unfolding collect
  method_from raw = collect (codes "method") set_string (members_of raw) []

  unfoldable pub id_from : Str → Option Str
  unfolding collect
  id_from raw = collect (codes "id") (λ v old. some v) (members_of raw) none

  -- A field of `params`; null has no members.
  unfoldable pub from_params {ℓ} : {S : Type ℓ} → Str → (Str → S → S) → Str → S → S
  unfolding collect
  from_params key set raw s =
      collect (codes "params") (λ p. collect key set (members_of p)) (members_of raw) s

  unfoldable pub tool_name_from : Str → Str
  unfolding from_params
  tool_name_from raw = from_params (codes "name") set_string raw []

  -- A map field: null empties it, an object is merged into it.
  abbrev pub merge_object : Option (List (Str × Str)) → Gathered → Gathered
  merge_object none g = record g { failed = true }
  merge_object (some ms) g = record g { entries = some (insert_all ms (or_else g.entries [])) }

  abbrev pub gather_arguments : Str → Gathered → Gathered
  gather_arguments v g =
      if is_null v then record g { entries = none } else merge_object (d.members v) g

  abbrev pub in_object : Option (List (Str × Str)) → Gathered → Gathered
  in_object none g = record g { failed = true }
  in_object (some ms) g = collect (codes "arguments") gather_arguments ms g

  abbrev pub gather_params : Str → Gathered → Gathered
  gather_params p g = if is_null p then g else in_object (d.members p) g

  unfoldable pub gather : Str → Gathered
  unfolding collect insert_all
  gather raw =
      collect (codes "params") gather_params (members_of raw)
        (record { entries = none; failed = false })

  abbrev pub value_of_string : Option Str → Value
  value_of_string none = other
  value_of_string (some s) = text s

  -- A null decodes to the empty string without an error.
  abbrev pub value_of : Str → Value
  value_of v = if is_null v then text [] else value_of_string (d.string v)

  abbrev pub entry_of : Str × Str → Str × Value
  entry_of (k, v) = (k, value_of v)

  unfoldable pub values_of : Map Str → Map Value
  values_of [] = []
  values_of (e ∷ es) = entry_of e ∷ values_of es

  unfoldable pub tool_arguments_from : Str → Map Value
  unfolding gather values_of
  tool_arguments_from raw =
      let g = gather raw in if g.failed then [] else values_of (or_else g.entries [])

  -- The member `command` of the arguments of bash_tool; none where they are no object, or where
  -- that member is of another type.
  abbrev pub command_failed : Str → Bool → Bool
  command_failed v failed = failed || not (is_null v || is_some (d.string v))

  abbrev pub command_in : List (Str × Str) → Option Str
  command_in ms =
      if collect (codes "command") command_failed ms false
      then none
      else some (collect (codes "command") set_string ms [])

  abbrev pub command_of : Option (List (Str × Str)) → Option Str
  command_of none = none
  command_of (some ms) = command_in ms

  unfoldable pub command_from : Str → Option Str
  unfolding collect
  command_from arguments = command_of (d.members arguments)

  abbrev pub raw_arguments_from : Str → Str
  raw_arguments_from raw = from_params (codes "arguments") (λ v old. v) raw []

  unfoldable pub tool_call_from : Scripts → Str → ToolCall
  unfolding from_params tool_name_from command_from project
  tool_call_from scripts raw =
      let name = tool_name_from raw in
      let arguments = raw_arguments_from raw in
      let (argv, stdin) = project scripts command_from name arguments in
      record { name = name; arguments = arguments; argv = argv; stdin = stdin }
