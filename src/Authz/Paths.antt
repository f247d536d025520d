-- ===== src/Authz/Paths.antt =====
-- internal/authz/decide.go, pathUnderAnyPrefix, with `path.Clean` of Go's standard library as it
-- is documented: elements between slashes, of which "" and "." are dropped and ".." takes the
-- element before it; ".." at a root is dropped, and otherwise kept.
pub mod Elements
pub mod Join
pub mod Containment
use mathlib.Core.List.{reverse}
use ocu_mcp_gateway.Base.{
  ℕ, Bool, true, false, ◌&&◌, ◌||◌, List, [], ◌∷◌, ◌++◌, ◌==◌, if◌then◌else◌, Str, str_eq,
  has_prefix, is_empty, any,
}

abbrev pub slash : ℕ
slash = b'/'

abbrev pub dot : Str
dot = b'.' ∷ []

abbrev pub dot_dot : Str
dot_dot = b'.' ∷ b'.' ∷ []

abbrev pub is_rooted : Str → Bool
is_rooted [] = false
is_rooted (c ∷ s) = c == slash

abbrev pub cons_head : ℕ → List Str → List Str
cons_head c [] = (c ∷ []) ∷ []
cons_head c (x ∷ xs) = (c ∷ x) ∷ xs

unfoldable pub split : Str → List Str
split [] = [] ∷ []
split (c ∷ s) = let rest = split s in if c == slash then [] ∷ rest else cons_head c rest

-- ".." below the elements so far, the last of them first.
abbrev pub climb : Bool → List Str → List Str
climb true [] = []
climb true (x ∷ xs) = xs
climb false [] = dot_dot ∷ []
climb false (x ∷ xs) = if str_eq x dot_dot then dot_dot ∷ x ∷ xs else xs

unfoldable pub enter : Bool → List Str → Str → List Str
enter rooted stack x =
    if is_empty x || str_eq x dot
    then stack
    else if str_eq x dot_dot
    then climb rooted stack
    else x ∷ stack

unfoldable pub walk : Bool → List Str → List Str → List Str
walk rooted stack [] = reverse stack
walk rooted stack (x ∷ xs) = walk rooted (enter rooted stack x) xs

unfoldable pub elements : Str → List Str
unfolding walk split enter
elements p = walk (is_rooted p) [] (split p)

unfoldable pub join : List Str → Str
join [] = []
join (x ∷ []) = x
join (x ∷ y ∷ xs) = x ++ (slash ∷ join (y ∷ xs))

-- `path.Clean`.
unfoldable pub clean : Str → Str
unfolding elements join
clean p =
    if is_rooted p
    then slash ∷ join (elements p)
    else if is_empty (elements p)
    then dot
    else join (elements p)

-- The body of the loop over the prefixes.
unfoldable pub path_under_prefix : Str → Str → Bool
path_under_prefix p prefix =
    str_eq (clean p) (clean prefix) || has_prefix (clean p) (clean prefix ++ slash ∷ [])

unfoldable pub path_under_any_prefix : Str → List Str → Bool
unfolding path_under_prefix
path_under_any_prefix p [] = false
path_under_any_prefix p (prefix ∷ prefixes) =
    path_under_prefix p prefix || path_under_any_prefix p prefixes
