-- ===== src/Authz/Paths/Containment.antt =====
-- internal/authz/decide.go, pathUnderAnyPrefix: what it grants, told by elements.
use mathlib.Core.List.{append-nil}
use ocu_mcp_gateway.Base.{
  ◌≡◌, ◌↔◌, inl, inr, refl, sym, ◌∙◌, subst, true, false, List, [], ◌∷◌, ◌++◌, arith, Str, All, Any,
  has_prefix, str_eq, str_eq_iff, str_eq_refl, ◌||◌, Bool-cases,
}
use ocu_mcp_gateway.Authz.Paths.{
  slash, is_rooted, elements, join, clean, path_under_prefix, path_under_any_prefix,
}
use ocu_mcp_gateway.Authz.Paths.Elements.{IsProper, IsPlain, elements-IsProper, elements-IsPlain}
use ocu_mcp_gateway.Authz.Paths.Join.{join-injective, has_prefix-join, has_prefix-join_append}

-- `p` is absolute and its elements continue those of `prefix`; those of the root prefix, of which
-- there are none, have no continuation.
pub record LiesUnder (p prefix : Str) : Type 0 where
  pub rooted : is_rooted p ≡ true
  pub more : List Str
  pub continues : elements p ≡ elements prefix ++ more
  pub at_root : elements prefix ≡ [] → more ≡ []

clean-rooted : (p : Str) → is_rooted p ≡ true → clean p ≡ slash ∷ join (elements p)
unfolding clean
clean-rooted p r = rw r

-- A relative path stays relative.
join-relative : (xs : List Str) → All IsProper xs → is_rooted (join xs) ≡ false
unfolding join
join-relative [] h = refl
join-relative ([] ∷ xs) h = absurd (h.0.0 refl)
join-relative ((c ∷ x) ∷ []) h = ground arith
join-relative ((c ∷ x) ∷ y ∷ xs) h = ground arith

is_rooted-clean : (p : Str) → is_rooted p ≡ false → is_rooted (clean p) ≡ false
unfolding clean
is_rooted-clean p r = ground (arith, join-relative (elements p) (elements-IsProper p))

rooted_of_prefix : (s t : Str) → has_prefix s (slash ∷ t) ≡ true → is_rooted s ≡ true
unfolding has_prefix
rooted_of_prefix [] t e = absurd (cc)
rooted_of_prefix (c ∷ s) t e = ground arith

module _ (p prefix : Str) (r : is_rooted prefix ≡ true) where
  relative_refused : is_rooted p ≡ false → path_under_prefix p prefix ≡ false
  unfolding path_under_prefix
  relative_refused rel = rw (clean-rooted prefix r) (
      ground (
        arith,
        is_rooted-clean p rel,
        str_eq_iff (clean p) (slash ∷ join (elements prefix)),
        rooted_of_prefix (clean p) (join (elements prefix) ++ slash ∷ []),
      ))

  rooted_test :
      is_rooted p ≡ true
      → path_under_prefix p prefix ≡ (
          str_eq (join (elements p)) (join (elements prefix))
          || has_prefix (join (elements p)) (join (elements prefix) ++ slash ∷ []))
  unfolding path_under_prefix str_eq has_prefix
  rooted_test q = rw (clean-rooted prefix r, clean-rooted p q) (ground arith)

  equal_elements :
      str_eq (join (elements p)) (join (elements prefix)) ≡ true → elements p ≡ elements prefix
  equal_elements e =
      join-injective (elements p) (elements prefix) (elements-IsProper p) (elements-IsProper prefix)
        ((str_eq_iff _ _).0 e)

  under_sound : path_under_prefix p prefix ≡ true → LiesUnder p prefix
  under_sound e = elim (Bool-cases (is_rooted p)) [
    | inr rel ↦ absurd (cc (e, relative_refused rel))
    | inl q ↦ elim (Bool-cases (str_eq (join (elements p)) (join (elements prefix)))) [
      | inl same ↦ record {
        rooted = q;
        more = [];
        continues = equal_elements same ∙ sym (append-nil (elements prefix));
        at_root = λ _. refl;
      }
      | inr other ↦
          let (ne, (more, cont)) =
            has_prefix-join (elements p) (elements prefix) (elements-IsProper p)
              (elements-IsProper prefix) (ground (arith, rooted_test q)) in
          record { rooted = q; more = more; continues = cont; at_root = λ z. absurd (ne z) }
    ]
  ]

  under_complete_from :
      (more : List Str)
      → is_rooted p ≡ true
      → elements p ≡ elements prefix ++ more
      → (elements prefix ≡ [] → more ≡ [])
      → path_under_prefix p prefix ≡ true
  under_complete_from [] q e f =
      rw (rooted_test q, e, append-nil (elements prefix), str_eq_refl (join (elements prefix)))
  under_complete_from (z ∷ zs) q e f =
      let h : has_prefix (join (elements p)) (join (elements prefix) ++ slash ∷ []) ≡ true =
        rw e (has_prefix-join_append (elements prefix) z zs (λ n. absurd (cc (f n)))) in
      ground (arith, rooted_test q, h)

  -- For an absolute prefix the test grants exactly the absolute paths that lie under it.
  pub path_under_prefix_iff : (path_under_prefix p prefix ≡ true) ↔ LiesUnder p prefix
  path_under_prefix_iff =
      (under_sound, λ l. under_complete_from l.more l.rooted l.continues l.at_root)

-- For absolute prefixes, as the policy schema requires, a path is granted exactly if it is
-- absolute and its elements, after "." and ".." are resolved, continue those of one of the
-- prefixes, where the root prefix grants the root alone.
pub path_under_any_prefix_iff :
    (p : Str) (prefixes : List Str)
    → All (λ prefix. is_rooted prefix ≡ true) prefixes
    → (path_under_any_prefix p prefixes ≡ true) ↔ Any (LiesUnder p) prefixes
unfolding path_under_any_prefix
path_under_any_prefix_iff p [] h = ((λ e. absurd (cc)), (λ e. elim e [ ]))
path_under_any_prefix_iff p (prefix ∷ prefixes) h =
    let (here, back) = path_under_prefix_iff p prefix h.0 in
    let (later, back') = path_under_any_prefix_iff p prefixes h.1 in
    (
      (λ e. elim (Bool-cases (path_under_prefix p prefix)) [
        | inl yes' ↦ inl (here yes')
        | inr no' ↦ inr (later (ground arith))
      ]),
      elim [ inl l ↦ ground (arith, back l) | inr l ↦ ground (arith, back' l) ],
    )

All-append_right : (xs ys : List Str) → All IsPlain (xs ++ ys) → All IsPlain ys
All-append_right [] ys h = h
All-append_right (x ∷ xs) ys h = All-append_right xs ys h.1

-- What is granted cannot leave the prefix: the continuation consists of names, none of them "",
-- "." or "..", and none with a slash.
pub LiesUnder-IsPlain : (p prefix : Str) (l : LiesUnder p prefix) → All IsPlain l.more
LiesUnder-IsPlain p prefix l =
    All-append_right (elements prefix) l.more
      (subst (All IsPlain) l.continues (elements-IsPlain p l.rooted))
