-- ===== src/Authz/Paths/Join.antt =====
-- Elements joined by slashes can be taken apart again.
use mathlib.Core.List.{append_assoc}
use ocu_mcp_gateway.Base.{
  ℕ, ◌≡◌, ◌≢◌, refl, sym, ap, ◌∙◌, true, false, List, [], ◌∷◌, ◌++◌, arith, Str, All, All-impl,
  has_prefix, has_prefix_sound, has_prefix_complete,
}
use ocu_mcp_gateway.Authz.Paths.{slash, cons_head, split, join}
use ocu_mcp_gateway.Authz.Paths.Elements.{NoSlash, IsProper}

cons_head-append :
    (c : ℕ) (s : Str) (ys : List Str) → cons_head c (split s ++ ys) ≡ cons_head c (split s) ++ ys
unfolding split
cons_head-append c [] ys = refl
cons_head-append c (d ∷ s) ys = ground (arith, cons_head-append d s ys)

pub split-append : (s t : Str) → split (s ++ (slash ∷ t)) ≡ split s ++ split t
unfolding split
split-append [] t = refl
split-append (c ∷ s) t = ground (arith, split-append s t, cons_head-append c s (split t))

split_one : (x : Str) → NoSlash x → split x ≡ x ∷ []
unfolding split
split_one [] n = refl
split_one (c ∷ x) n = ground (arith, split_one x n.1)

pub split-join : (x : Str) (xs : List Str) → All NoSlash (x ∷ xs) → split (join (x ∷ xs)) ≡ x ∷ xs
unfolding join
split-join x [] n = split_one x n.0
split-join x (y ∷ xs) n =
    split-append x (join (y ∷ xs)) ∙ (rw (split_one x n.0, split-join y xs n.1))

All-NoSlash : (xs : List Str) → All IsProper xs → All NoSlash xs
All-NoSlash = All-impl IsProper NoSlash (λ x h. h.1)

join-ne-nil : (x : Str) (xs : List Str) → x ≢ [] → join (x ∷ xs) ≢ []
unfolding join
join-ne-nil [] xs n = absurd (n refl)
join-ne-nil (c ∷ x) [] n = λ e. cc
join-ne-nil (c ∷ x) (y ∷ xs) n = λ e. cc

pub join-injective :
    (xs ys : List Str) → All IsProper xs → All IsProper ys → join xs ≡ join ys → xs ≡ ys
unfolding join
join-injective [] [] hx hy e = refl
join-injective [] (y ∷ ys) hx hy e = absurd (join-ne-nil y ys hy.0.0 (sym e))
join-injective (x ∷ xs) [] hx hy e = absurd (join-ne-nil x xs hx.0.0 e)
join-injective (x ∷ xs) (y ∷ ys) hx hy e =
    sym (split-join x xs (All-NoSlash (x ∷ xs) hx))
    ∙ ap split e
    ∙ split-join y ys (All-NoSlash (y ∷ ys) hy)

join-starts :
    (x : Str) (xs : List Str) → IsProper x → has_prefix (join (x ∷ xs)) (slash ∷ []) ≡ false
unfolding join has_prefix
join-starts [] xs h = absurd (h.0 refl)
join-starts (c ∷ x) [] h = ground arith
join-starts (c ∷ x) (y ∷ xs) h = ground arith

nil-prefix : (s : Str) → has_prefix [] (s ++ slash ∷ []) ≡ false
unfolding has_prefix
nil-prefix [] = refl
nil-prefix (c ∷ s) = refl

-- A string prefix up to a slash is a prefix of the elements.
pub has_prefix-join :
    (xs ys : List Str)
    → All IsProper xs
    → All IsProper ys
    → has_prefix (join xs) (join ys ++ slash ∷ []) ≡ true
    → (ys ≢ []) × ((more : List Str) × (xs ≡ ys ++ more))
unfolding join
has_prefix-join [] ys hx hy e = absurd (cc (e, nil-prefix (join ys)))
has_prefix-join (x ∷ xs) [] hx hy e = absurd (cc (e, join-starts x xs hx.0))
has_prefix-join (x ∷ xs) (y ∷ ys) hx hy e =
    let (rest, f) = has_prefix_sound (join (x ∷ xs)) (join (y ∷ ys) ++ slash ∷ []) e in
    (
      (λ e. cc),
      (
        split rest,
        sym (split-join x xs (All-NoSlash (x ∷ xs) hx))
            ∙ ap split (f ∙ append_assoc (join (y ∷ ys)) (slash ∷ []) rest)
            ∙ split-append (join (y ∷ ys)) rest
            ∙ ap (λ zs. zs ++ split rest) (split-join y ys (All-NoSlash (y ∷ ys) hy)),
      ),
    )

join-append :
    (y : Str) (ys : List Str) (z : Str) (zs : List Str)
    → join ((y ∷ ys) ++ (z ∷ zs)) ≡ (join (y ∷ ys) ++ slash ∷ []) ++ join (z ∷ zs)
unfolding join
join-append y [] z zs = sym (append_assoc y (slash ∷ []) (join (z ∷ zs)))
join-append y (w ∷ ys) z zs =
    ap (λ t. y ++ (slash ∷ t)) (join-append w ys z zs) ∙ (simp append_assoc)

pub has_prefix-join_append :
    (ys : List Str) (z : Str) (zs : List Str)
    → ys ≢ []
    → has_prefix (join (ys ++ (z ∷ zs))) (join ys ++ slash ∷ []) ≡ true
has_prefix-join_append [] z zs n = absurd (n refl)
has_prefix-join_append (y ∷ ys) z zs n =
    rw (join-append y ys z zs) (has_prefix_complete (join (y ∷ ys) ++ slash ∷ []) (join (z ∷ zs)))
