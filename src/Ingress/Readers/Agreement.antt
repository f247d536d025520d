-- ===== src/Ingress/Readers/Agreement.antt =====
-- internal/ingress/handler.go: the policy and the forward read one call off a body.
use ocu_mcp_gateway.Base.{
  false, List, [], ◌∷◌, Option, none, some, if◌then◌else◌, Str, codes, str_eq, Map, ◌≡◌, inl, inr,
  refl, ◌∙◌, Bool-cases, Option-cases,
}
use ocu_mcp_gateway.Authz.Policy.{Value}
use ocu_mcp_gateway.Projection.{Scripts}
use ocu_mcp_gateway.Ingress.Readers.{
  Decoder, collect, fold_name, members_of, from_params, gather, gather_params, gather_arguments,
  tool_name_from, tool_arguments_from, tool_call_from, insert_all, values_of, is_null, Gathered,
  raw_arguments_from,
}

-- The values of the members that go to the field `key`.
unfoldable pub matching : Str → List (Str × Str) → List Str
matching key [] = []
matching key ((k, v) ∷ ms) =
    let rest = matching key ms in if str_eq (fold_name k) key then v ∷ rest else rest

abbrev fold_values {ℓ} : {S : Type ℓ} → (Str → S → S) → List Str → S → S
fold_values set [] s = s
fold_values set (v ∷ vs) s = fold_values set vs (set v s)

collect-matching {ℓ} :
    {S : Type ℓ} (key : Str) (set : Str → S → S) (ms : List (Str × Str)) (s : S)
    → collect key set ms s ≡ fold_values set (matching key ms) s
unfolding collect matching
collect-matching key set [] s = refl
collect-matching key set ((k, v) ∷ ms) s = elim (Bool-cases (str_eq (fold_name k) key)) [
  | inl hit ↦ rw (hit) (collect-matching key set ms (set v s))
  | inr miss ↦ rw (miss) (collect-matching key set ms s)
]

collect_single {ℓ} :
    {S : Type ℓ} (key : Str) (set : Str → S → S) (ms : List (Str × Str)) (s : S) (v : Str)
    → matching key ms ≡ v ∷ []
    → collect key set ms s ≡ set v s
collect_single key set ms s v e = rw (collect-matching key set ms s, e) refl

module _ (d : Decoder) where
  -- The body is an object with one member `params`, an object, with one member `arguments`, of the
  -- text `a`, where names are compared but for case.
  pub record IsSingle (raw a : Str) : Type 0 where
    pub top : List (Str × Str)
    pub decoded : d.members raw ≡ some top
    pub params : Str
    pub one_params : matching (codes "params") top ≡ params ∷ []
    pub inner : List (Str × Str)
    pub entered : d.members params ≡ some inner
    pub given : is_null params ≡ false
    pub one_arguments : matching (codes "arguments") inner ≡ a ∷ []

  abbrev members_to_values : Option (List (Str × Str)) → Map Value
  members_to_values none = []
  members_to_values (some ms) = values_of d (insert_all ms [])

  -- The members of a text as a map of values: none where it is null or no object.
  unfoldable pub argument_values : Str → Map Value
  argument_values a = if is_null a then [] else members_to_values (d.members a)

  -- The empty start of the gathering.
  abbrev start : Gathered
  start = record { entries = none; failed = false }

  gather_single : (raw a : Str) → IsSingle raw a → gather d raw ≡ gather_arguments d a start
  unfolding gather
  gather_single raw a s = rw (s.decoded) (
      collect_single (codes "params") (gather_params d) s.top start s.params s.one_params
      ∙ rw (s.given, s.entered)
          (collect_single (codes "arguments") (gather_arguments d) s.inner start a s.one_arguments))

  raw_arguments_single : (raw a : Str) → IsSingle raw a → raw_arguments_from d raw ≡ a
  unfolding from_params
  raw_arguments_single raw a s = rw (s.decoded) (
      collect_single (codes "params")
        (λ p. collect (codes "arguments") (λ v old. v) (members_of d p)) s.top [] s.params
        s.one_params
      ∙ rw (s.entered)
          (collect_single (codes "arguments") (λ v old. v) s.inner [] a s.one_arguments))

  arguments_single : (raw a : Str) → IsSingle raw a → tool_arguments_from d raw ≡ argument_values a
  unfolding tool_arguments_from argument_values insert_all values_of
  arguments_single raw a s = rw (gather_single raw a s) (elim (Bool-cases (is_null a)) [
    | inl null ↦ rw (null) refl
    | inr value ↦ elim (Option-cases (d.members a)) [
      | inl flat ↦ rw (value, flat) refl
      | inr (ms, found) ↦ rw (value, found) refl
    ]
  ])

  -- For a body with one `params` and one `arguments` in it: the policy is given the values of exactly
  -- those arguments that the call forwards, and the tool name of the call is the one it is given.
  pub tool_call-agrees :
      (scripts : Scripts) (raw a : Str)
      → IsSingle raw a
      → ((tool_call_from d scripts raw).name ≡ tool_name_from d raw)
        × ((tool_call_from d scripts raw).arguments ≡ a)
        × (tool_arguments_from d raw ≡ argument_values a)
  unfolding tool_call_from
  tool_call-agrees scripts raw a s = (refl, raw_arguments_single raw a s, arguments_single raw a s)
