-- ===== src/Quota/Invariant.antt =====
-- internal/quota/ceiling.go: the map counts exactly the acquisitions in flight.
use ocu_mcp_gateway.Base.{
  ℕ, zero, suc, ◌≤◌, ◌≡◌, refl, ◌↔◌, true, false, List, [], ◌∷◌, ◌++◌, Option, none, some, arith,
  Str, str_eq_iff, get_elem?, set, ℤ, pos, Result, ok, err, lookup, lookup-insert, lookup-delete,
  get_elem?-set_self, set-set, insert, ◌-◌,
}
use ocu_mcp_gateway.Quota.{
  Ceiling, Error, ceiling_exceeded, Release, noop, closure, acquire, release, System, after_acquire,
  release_at, Event, acquires, releases, step, run, start,
}
use ocu_mcp_gateway.Quota.Held.{held, held-append, held-set}

-- What the map holds for a key of which `n` acquisitions are in flight: no entry at zero.
abbrev pub entry : ℕ → Option ℤ
entry zero = none
entry (suc n) = some (pos (suc n))

-- For a positive limit: each key's entry is its number of acquisitions in flight, which is
-- within the limit.
pub record Inv (l : ℕ) (s : System) : Type 0 where
  pub limited : s.ceiling.limit ≡ pos (suc l)
  pub exact : (key : Str) → lookup key s.ceiling.counts ≡ entry (held key s.grants)
  pub bounded : (key : Str) → held key s.grants ≤ suc l

acquire-exact :
    (l : ℕ) (s : System) (key j : Str) (c : Ceiling) (g : Release)
    → Inv l s
    → acquire s.ceiling key ≡ ok (c, g)
    → (c.limit ≡ pos (suc l))
      × (lookup j c.counts ≡ entry (held j (s.grants ++ g ∷ [])))
      × (held j (s.grants ++ g ∷ []) ≤ suc l)
unfolding acquire
acquire-exact l s key j c g v e = ground (
  arith,
  v.exact key,
  v.exact j,
  v.bounded j,
  held-append j s.grants g,
  str_eq_iff key j,
  lookup-insert key j (pos (suc (held key s.grants))) s.ceiling.counts,
)

release-exact :
    (l : ℕ) (s : System) (i : ℕ) (g : Release) (j : Str)
    → Inv l s
    → get_elem? s.grants i ≡ some g
    → let (c, g') = release s.ceiling g in
      (c.limit ≡ pos (suc l))
      × (lookup j c.counts ≡ entry (held j (set s.grants i g')))
      × (held j (set s.grants i g') ≤ suc l)
unfolding release
release-exact l s i noop j v e =
    ground (arith, v.exact j, v.bounded j, held-set j s.grants i noop noop)
release-exact l s i (closure key true) j v e =
    ground
      (arith, v.exact j, v.bounded j, held-set j s.grants i (closure key true) (closure key true))
release-exact l s i (closure key false) j v e = ground (
  arith,
  v.exact key,
  v.exact j,
  v.bounded j,
  held-set j s.grants i (closure key false) (closure key true),
  held-set key s.grants i (closure key false) (closure key true),
  str_eq_iff key j,
  str_eq_iff key key,
  lookup-insert key j (pos (held key s.grants - 1)) s.ceiling.counts,
  lookup-delete key j (insert key (pos (held key s.grants - 1)) s.ceiling.counts),
)

after_acquire-Inv :
    (l : ℕ) (s : System) (key : Str) (r : Result Error (Ceiling × Release))
    → Inv l s
    → acquire s.ceiling key ≡ r
    → Inv l (after_acquire s r)
after_acquire-Inv l s key (ok (c, g)) v e = record {
  limited = (acquire-exact l s key key c g v e).0;
  exact = λ j. (acquire-exact l s key j c g v e).1;
  bounded = λ j. (acquire-exact l s key j c g v e).2;
}
after_acquire-Inv l s key (err x) v e = v

release_at-Inv :
    (l : ℕ) (s : System) (i : ℕ) (o : Option Release)
    → Inv l s
    → get_elem? s.grants i ≡ o
    → Inv l (release_at s i o)
release_at-Inv l s i none v e = v
release_at-Inv l s i (some g) v e = record {
  limited = (release-exact l s i g [] v e).0;
  exact = λ j. (release-exact l s i g j v e).1;
  bounded = λ j. (release-exact l s i g j v e).2;
}

step-Inv : (l : ℕ) (s : System) (e : Event) → Inv l s → Inv l (step s e)
unfolding step
step-Inv l s (acquires key) v = after_acquire-Inv l s key (acquire s.ceiling key) v refl
step-Inv l s (releases i) v = release_at-Inv l s i (get_elem? s.grants i) v refl

run-Inv : (l : ℕ) (s : System) (es : List Event) → Inv l s → Inv l (run s es)
unfolding run
run-Inv l s [] v = v
run-Inv l s (e ∷ es) v = run-Inv l (step s e) es (step-Inv l s e v)

start-Inv : (l : ℕ) → Inv l (start (pos (suc l)))
unfolding start held lookup
start-Inv l = record { limited = refl; exact = λ key. refl; bounded = λ key. omega arith }

release-release : (c d : Ceiling) (g : Release) → release d (release c g).1 ≡ (d, (release c g).1)
unfolding release
release-release c d noop = refl
release-release c d (closure key true) = refl
release-release c d (closure key false) = refl

release_at_twice :
    (s : System) (i : ℕ) (o : Option Release)
    → get_elem? s.grants i ≡ o
    → release_at (release_at s i o) i (get_elem? (release_at s i o).grants i) ≡ release_at s i o
release_at_twice s i none e = rw e
release_at_twice s i (some g) e =
    let (c, g') = release s.ceiling g in
    ground (
      arith,
      get_elem?-set_self s.grants i g' e,
      set-set s.grants i g' g',
      release-release s.ceiling c g,
    )

-- With a positive limit and after any history of acquisitions and releases, released twice or
-- not, the map holds for each caller exactly the acquisitions not yet released, no entry if there
-- are none, and never more than the limit.
pub run_counts :
    (l : ℕ) (es : List Event) (key : Str)
    → let s = run (start (pos (suc l))) es in
      (lookup key s.ceiling.counts ≡ entry (held key s.grants)) × (held key s.grants ≤ suc l)
run_counts l es key =
    let v = run-Inv l (start (pos (suc l))) es (start-Inv l) in (v.exact key, v.bounded key)

-- With a positive limit and after any history, an acquisition is refused exactly when the caller
-- already has as many in flight as the limit allows.
pub acquire_refused_iff :
    (l : ℕ) (es : List Event) (key : Str)
    → let s = run (start (pos (suc l))) es in
      (acquire s.ceiling key ≡ err ceiling_exceeded) ↔ (held key s.grants ≡ suc l)
unfolding acquire
acquire_refused_iff l es key =
    let s : System = run (start (pos (suc l))) es in
    let v : Inv l s = run-Inv l (start (pos (suc l))) es (start-Inv l) in
    ground (arith, v.limited, v.exact key, v.bounded key)

-- A second call of a release function changes nothing, whatever the state.
pub release_twice :
    (s : System) (i : ℕ) → step (step s (releases i)) (releases i) ≡ step s (releases i)
unfolding step
release_twice s i = release_at_twice s i (get_elem? s.grants i) refl
