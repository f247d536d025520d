-- ===== src/Ingress/Readers/Tests.antt =====
-- Runs of the readers, and their agreement at a concrete body.
use ocu_mcp_gateway.Base.{
  [], ◌∷◌, none, some, if◌then◌else◌, codes, str_eq, ◌≡◌, refl, insert, lookup,
}
use ocu_mcp_gateway.Authz.Policy.{text}
use ocu_mcp_gateway.Projection.{Scripts}
use ocu_mcp_gateway.Ingress.Readers.{
  Decoder, fold_name, collect, from_params, gather, insert_all, values_of, tool_name_from,
  tool_arguments_from, tool_call_from,
}
use ocu_mcp_gateway.Ingress.Readers.Agreement.{
  IsSingle, matching, argument_values, tool_call-agrees,
}

-- Texts of one letter that stand for JSON: bodies B and D, their params P and Q, arguments A and E,
-- and the strings N and X.
abbrev letters : Decoder
letters = record {
  members = λ s.
      if str_eq s (codes "B")
      then some ((codes "METHOD", codes "N") ∷ (codes "Params", codes "P") ∷ [])
      else if str_eq s (codes "D")
      then some ((codes "params", codes "Q") ∷ [])
      else if str_eq s (codes "P")
      then some ((codes "name", codes "N") ∷ (codes "arguments", codes "A") ∷ [])
      else if str_eq s (codes "Q")
      then some ((codes "arguments", codes "A") ∷ (codes "Arguments", codes "E") ∷ [])
      else if str_eq s (codes "A")
      then some ((codes "path", codes "X") ∷ [])
      else if str_eq s (codes "E")
      then some []
      else none;
  string = λ s.
      if str_eq s (codes "N")
      then some (codes "view")
      else if str_eq s (codes "X")
      then some (codes "/x")
      else none;
}

abbrev scripts : Scripts
scripts = record { create_file = codes "c"; str_replace = codes "s"; view = codes "v" }

named : tool_name_from letters (codes "B") ≡ codes "view"
unfolding tool_name_from from_params collect fold_name codes str_eq
named = refl

kelvin : fold_name (226 ∷ 132 ∷ 170 ∷ b'E' ∷ []) ≡ codes "ke"
unfolding fold_name codes
kelvin = refl

-- With two members `arguments`, of which the last is empty, the policy still sees the path of the
-- first, and the call forwards the last.
merged_path :
    lookup (codes "path") (tool_arguments_from letters (codes "D")) ≡ some (text (codes "/x"))
unfolding tool_arguments_from gather insert_all insert values_of collect fold_name codes str_eq
    lookup
merged_path = refl

last_forwarded : (tool_call_from letters scripts (codes "D")).arguments ≡ codes "E"
unfolding tool_call_from from_params collect fold_name codes str_eq
last_forwarded = refl

body-IsSingle : IsSingle letters (codes "B") (codes "A")
unfolding codes str_eq matching fold_name
body-IsSingle = record {
  top = (codes "METHOD", codes "N") ∷ (codes "Params", codes "P") ∷ [];
  decoded = refl;
  params = codes "P";
  one_params = refl;
  inner = (codes "name", codes "N") ∷ (codes "arguments", codes "A") ∷ [];
  entered = refl;
  given = refl;
  one_arguments = refl;
}

tool_call-agrees_example :
    ((tool_call_from letters scripts (codes "B")).name ≡ tool_name_from letters (codes "B"))
    × ((tool_call_from letters scripts (codes "B")).arguments ≡ codes "A")
    × (tool_arguments_from letters (codes "B") ≡ argument_values letters (codes "A"))
tool_call-agrees_example = tool_call-agrees letters scripts (codes "B") (codes "A") body-IsSingle
