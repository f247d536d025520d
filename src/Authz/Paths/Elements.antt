-- ===== src/Authz/Paths/Elements.antt =====
-- What `path.Clean` leaves as elements.
use mathlib.Core.List.{reverse_aux}
use ocu_mcp_gateway.Base.{
  ℕ, ◌≡◌, ◌≢◌, refl, Bool, true, false, List, [], ◌∷◌, arith, Str, str_eq_iff, All, is_empty,
}
use ocu_mcp_gateway.Authz.Paths.{
  slash, dot, dot_dot, is_rooted, cons_head, split, enter, walk, elements,
}

abbrev pub NoSlash : Str → Type 0
NoSlash [] = Unit {0}
NoSlash (c ∷ s) = (c ≢ slash) × NoSlash s

-- An element that names an entry of a directory.
abbrev pub IsPlain : Str → Type 0
IsPlain x = (x ≢ []) × (x ≢ dot) × (x ≢ dot_dot) × NoSlash x

abbrev pub IsProper : Str → Type 0
IsProper x = (x ≢ []) × NoSlash x

All-reverse_aux :
    (P : Str → Type 0) (xs ys : List Str) → All P xs → All P ys → All P (reverse_aux xs ys)
All-reverse_aux P [] ys hx hy = hy
All-reverse_aux P (x ∷ xs) ys hx hy = All-reverse_aux P xs (x ∷ ys) hx.1 (hx.0, hy)

cons_head-NoSlash :
    (c : ℕ) (xs : List Str) → c ≢ slash → All NoSlash xs → All NoSlash (cons_head c xs)
cons_head-NoSlash c [] n h = ((n, tt), tt)
cons_head-NoSlash c (x ∷ xs) n h = ((n, h.0), h.1)

pub split-NoSlash : (s : Str) → All NoSlash (split s)
unfolding split
split-NoSlash [] = (tt, tt)
split-NoSlash (c ∷ s) = ground (arith, split-NoSlash s, cons_head-NoSlash c (split s))

is_empty-eq : (x : Str) → x ≢ [] → is_empty x ≡ false
is_empty-eq [] n = absurd (n refl)
is_empty-eq (c ∷ x) n = refl

enter-IsPlain :
    (stack : List Str) (x : Str) → All IsPlain stack → NoSlash x → All IsPlain (enter true stack x)
unfolding enter
enter-IsPlain stack [] h n = h
enter-IsPlain [] (c ∷ x) h n = ground (arith, str_eq_iff (c ∷ x) dot, str_eq_iff (c ∷ x) dot_dot)
enter-IsPlain (y ∷ ys) (c ∷ x) h n =
    ground (arith, str_eq_iff (c ∷ x) dot, str_eq_iff (c ∷ x) dot_dot)

dot_dot-IsProper : IsProper dot_dot
dot_dot-IsProper = ((λ e. cc), (omega arith, (omega arith, tt)))

enter-IsProper :
    (rooted : Bool) (stack : List Str) (x : Str)
    → All IsProper stack
    → NoSlash x
    → All IsProper (enter rooted stack x)
unfolding enter
enter-IsProper rooted stack [] h n = h
enter-IsProper true [] (c ∷ x) h n = ground arith
enter-IsProper true (y ∷ ys) (c ∷ x) h n = ground arith
enter-IsProper false [] (c ∷ x) h n = ground (arith, dot_dot-IsProper)
enter-IsProper false (y ∷ ys) (c ∷ x) h n = ground (arith, dot_dot-IsProper)

walk-All :
    (P : Str → Type 0) (rooted : Bool)
    → ((stack : List Str) (x : Str) → All P stack → NoSlash x → All P (enter rooted stack x))
    → (stack parts : List Str) → All P stack
    → All NoSlash parts
    → All P (walk rooted stack parts)
unfolding walk
walk-All P rooted keep stack [] h n = All-reverse_aux P stack [] h tt
walk-All P rooted keep stack (x ∷ xs) h n =
    walk-All P rooted keep (enter rooted stack x) xs (keep stack x h n.0) n.1

pub elements-IsProper : (p : Str) → All IsProper (elements p)
unfolding elements
elements-IsProper p =
    walk-All IsProper (is_rooted p) (enter-IsProper (is_rooted p)) [] (split p) tt (split-NoSlash p)

-- A rooted path leaves no "", "." or ".." and no slash in its elements.
pub elements-IsPlain : (p : Str) → is_rooted p ≡ true → All IsPlain (elements p)
unfolding elements
elements-IsPlain p r = rw r (walk-All IsPlain true enter-IsPlain [] (split p) tt (split-NoSlash p))
