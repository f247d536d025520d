-- ===== src/Serialize/Leave.antt =====
-- The wait loop and the release function of internal/serialize/serialize.go keep gates and
-- queues in agreement.
use mathlib.Core.Path.{ap}
use ocu_mcp_gateway.Base.{
  ℕ, suc, ◌+◌, ◌%◌, ◌<◌, ◌≡◌, ◌≢◌, refl, sym, ◌∙◌, subst, Bool, true, false, List, [], ◌∷◌, ◌++◌,
  arith, length, pos, decr, inl, inr, Option, some, none, Str, str_eq, str_eq_iff, str_eq_refl,
  lookup, delete, lookup-delete, get_or, set, get_or-set_self, length-set, get_elem?, take,
  Bool-cases, ◌==◌, ==_iff,
}
use ocu_mcp_gateway.Serialize.{
  Gate, word, new_gate, gate_at, Serializer, Call, refused, exempt, waiting, roused, holding, done,
  wake, release, broadcast, System, Event, enters, wakes, releases, wake_at, release_at, step, run,
  start,
}
use ocu_mcp_gateway.Serialize.Slots.{Slot, share, live, live-set, live-set-broadcast}
use ocu_mcp_gateway.Serialize.Queue.{
  IsQueue, oldest_served, oldest_runs, served_address, wake-IsQueue, leave-IsQueue,
}
use ocu_mcp_gateway.Serialize.Invariant.{GoodAt, Inv, GoodAt-set, live-set_same}
use ocu_mcp_gateway.Serialize.Enter.{enter-Inv}

-- Where a call with a slot stands: its session has the gate that the call points to, and the
-- queue has the slot in it.
pub record Placed (m : ℕ) (s : System) (h : Str) (i : ℕ) (x : Slot) (c' : Call) : Type 0 where
  pub older : List Slot
  pub younger : List Slot
  pub found : lookup h s.serializer.gates ≡ some x.address
  pub allocated : x.address < length s.serializer.heap
  pub queue : IsQueue m x.address (gate_at s.serializer x.address) (older ++ (x ∷ younger))
  pub replaced : live h (set s.calls i c') ≡ older ++ (share h c' ++ younger)
  pub before : older ≡ live h (take i s.calls)

not-nil : (xs ys : List Slot) (x : Slot) → xs ++ (x ∷ ys) ≢ []
not-nil [] ys x e = cc
not-nil (y ∷ xs) ys x e = cc

module _ (m : ℕ) (small : suc m < word) (s : System) (v : Inv m s) (i : ℕ) where
  open s use {serializer as z, calls}

  slot_stands :
      (h : Str) (x : Slot) (c' : Call) (older younger : List Slot) (o : Option ℕ)
      → lookup h z.gates ≡ o
      → GoodAt m z.heap o (older ++ (x ∷ younger))
      → live h (set calls i c') ≡ older ++ (share h c' ++ younger)
      → older ≡ live h (take i calls)
      → Placed m s h i x c'
  slot_stands h x c' older younger none e g r b = absurd (not-nil older younger x g)
  slot_stands h x c' older younger (some a) e (lt, q) r b =
      let same : x.address ≡ a =
        served_address m small a (get_or z.heap a new_gate) older younger x q in
      record {
        older = older;
        younger = younger;
        found = rw same e;
        allocated = rw same lt;
        queue = subst (λ b. IsQueue m b (gate_at z b) (older ++ (x ∷ younger))) (sym same) q;
        replaced = r;
        before = b;
      }

  pub placed :
      (h : Str) (x : Slot) (c c' : Call)
      → get_elem? calls i ≡ some c
      → share h c ≡ x ∷ []
      → Placed m s h i x c'
  placed h x c c' e f =
      let (older, younger, p, q, b) = live-set h calls i c c' e in
      slot_stands h x c' older younger (lookup h z.gates) refl
        (subst (λ xs. GoodAt m z.heap (lookup h z.gates) xs)
          (p ∙ ap (λ ys. older ++ (ys ++ younger)) f) (v.good h))
        q b

  -- A wake-up that finds the call's ticket served.
  module _ (h : Str) (a t : ℕ) (here : get_elem? calls i ≡ some (roused h a t))
      (turn : (gate_at z a).serving ≡ t) where
    woken-good_self : GoodAt m z.heap (lookup h z.gates) (live h (set calls i (holding h a t)))
    woken-good_self =
        let p : Placed m s h i (record { address = a; ticket = t; runs = false }) (holding h a t) =
          placed h _ (roused h a t) (holding h a t) here (rw (str_eq_refl h)) in
        let first : p.older ≡ [] =
          oldest_served m small a (gate_at z a) p.older p.younger _ p.queue (sym turn) in
        rw (p.found, p.replaced, str_eq_refl h, first)
          (
            p.allocated,
            wake-IsQueue m small a t (gate_at z a) p.younger (
                subst
                  (λ o.
                    IsQueue m a (gate_at z a)
                      (o ++ (record { address = a; ticket = t; runs = false } ∷ p.younger)))
                  first p.queue),
          )

    woken-good :
        (j : Str) → GoodAt m z.heap (lookup j z.gates) (live j (set calls i (holding h a t)))
    woken-good j = elim (Bool-cases (str_eq h j)) [
      | inl same ↦
          subst (λ k. GoodAt m z.heap (lookup k z.gates) (live k (set calls i (holding h a t))))
            ((str_eq_iff h j).0 same) woken-good_self
      | inr other ↦
          rw (live-set_same j calls i (roused h a t) (holding h a t) here (rw other)) (v.good j)
    ]

abbrev advanced : Gate → Gate
advanced g = record g { serving = (g.serving + 1) % word; depth = decr g.depth }

module _ (z : Serializer) (calls : List Call) (h : Str) (a t : ℕ) where
  release-last :
      (gate_at z a).depth ≡ pos 1
      → release z calls (holding h a t) ≡ (
        record z { heap = set z.heap a (advanced (gate_at z a)); gates = delete h z.gates },
        broadcast a calls,
        done h a t,
      )
  unfolding release
  release-last e = rw e

  release-more :
      (n : ℕ)
      → (gate_at z a).depth ≡ pos (suc (suc n))
      → release z calls (holding h a t)
        ≡ (record z { heap = set z.heap a (advanced (gate_at z a)) }, broadcast a calls, done h a t)
  unfolding release
  release-more n e = ground (arith, e)

module _ (m : ℕ) (small : suc m < word) (s : System) (v : Inv m s) (i : ℕ) (h : Str) (a t : ℕ)
    (here : get_elem? s.calls i ≡ some (holding h a t)) where
  open s use {serializer as z, calls}

  abbrev running : Slot
  running = record { address = a; ticket = t; runs = true }

  abbrev heap' : List Gate
  heap' = set z.heap a (advanced (gate_at z a))

  spot : Placed m s h i running (done h a t)
  spot = placed m small s v i h running (holding h a t) (done h a t) here (rw (str_eq_refl h))

  others : (j : Str) → str_eq h j ≡ false → lookup j z.gates ≢ some a
  others j other e = absurd (cc (sym ((str_eq_iff h j).1 (v.apart h j a spot.found e)), other))

  kept : (j : Str) → str_eq h j ≡ false → live j (set calls i (done h a t)) ≡ live j calls
  kept j other = live-set_same j calls i (holding h a t) (done h a t) here (rw other)

  other-good :
      (j : Str)
      → str_eq h j ≡ false
      → GoodAt m heap' (lookup j z.gates) (live j (set calls i (done h a t)))
  other-good j other =
      rw (kept j other) (GoodAt-set m z.heap a _ (lookup j z.gates) _ (others j other) (v.good j))

  -- The queue that the release leaves behind.
  remaining :
      (younger : List Slot)
      → IsQueue m a (gate_at z a) (running ∷ younger)
      → live h (set calls i (done h a t)) ≡ younger
      → Inv m (release_at s i (some (holding h a t)))
  remaining [] q e = rw (release-last z calls h a t q.counted) (record {
    limited = v.limited;
    apart = λ j k b p r.
        ground (arith, p, r, lookup-delete h j z.gates, lookup-delete h k z.gates, v.apart j k b);
    good = λ j. elim (Bool-cases (str_eq h j)) [
      | inl same ↦
          rw (lookup-delete h j z.gates, same, live-set-broadcast j a calls i (done h a t))
            (subst (λ k. live k (set calls i (done h a t)) ≡ []) ((str_eq_iff h j).0 same) e)
      | inr other ↦
          rw (lookup-delete h j z.gates, other, live-set-broadcast j a calls i (done h a t))
            (other-good j other)
    ];
  })
  remaining (y ∷ ys) q e = rw (release-more z calls h a t (length ys) q.counted) (record {
    limited = v.limited;
    apart = v.apart;
    good = λ j. rw (live-set-broadcast j a calls i (done h a t)) (elim (Bool-cases (str_eq h j)) [
      | inl same ↦
          subst (λ k. GoodAt m heap' (lookup k z.gates) (live k (set calls i (done h a t))))
            ((str_eq_iff h j).0 same)
            (rw (spot.found, e)
              (
                rw (length-set z.heap a (advanced (gate_at z a))) spot.allocated,
                rw (get_or-set_self z.heap a (advanced (gate_at z a)) new_gate spot.allocated)
                    (leave-IsQueue m small a (gate_at z a) running y ys q),
              ))
      | inr other ↦ other-good j other
    ]);
  })

  left-Inv : Inv m (release_at s i (some (holding h a t)))
  left-Inv =
      let first : spot.older ≡ [] =
        oldest_runs m small a (gate_at z a) spot.older spot.younger running spot.queue refl in
      remaining spot.younger
        (subst (λ o. IsQueue m a (gate_at z a) (o ++ (running ∷ spot.younger))) first spot.queue)
        (subst (λ o. live h (set calls i (done h a t)) ≡ o ++ spot.younger) first spot.replaced)

module _ (m : ℕ) (small : suc m < word) (s : System) (v : Inv m s) (i : ℕ) where
  same_share :
      (c c' : Call)
      → get_elem? s.calls i ≡ some c
      → ((j : Str) → share j c' ≡ share j c)
      → Inv m (record s { calls = set s.calls i c' })
  same_share c c' here e = record {
    limited = v.limited;
    apart = v.apart;
    good = λ j. rw (live-set_same j s.calls i c c' here (e j)) (v.good j);
  }

  wake_at-Inv : (o : Option Call) → get_elem? s.calls i ≡ o → Inv m (wake_at s i o)
  unfolding wake
  wake_at-Inv none e = v
  wake_at-Inv (some (roused h a t)) e = elim (Bool-cases ((gate_at s.serializer a).serving == t)) [
    | inl turn ↦ rw turn (record {
      limited = v.limited;
      apart = v.apart;
      good = woken-good m small s v i h a t e ((==_iff _ _).0 turn);
    })
    | inr early ↦ rw early (same_share (roused h a t) (waiting h a t) e (λ j. refl))
  ]
  wake_at-Inv (some (waiting h a t)) e = same_share _ _ e (λ j. refl)
  wake_at-Inv (some (holding h a t)) e = same_share _ _ e (λ j. refl)
  wake_at-Inv (some (done h a t)) e = same_share _ _ e (λ j. refl)
  wake_at-Inv (some refused) e = same_share _ _ e (λ j. refl)
  wake_at-Inv (some exempt) e = same_share _ _ e (λ j. refl)

  release_at-Inv : (o : Option Call) → get_elem? s.calls i ≡ o → Inv m (release_at s i o)
  unfolding release
  release_at-Inv none e = v
  release_at-Inv (some (holding h a t)) e = left-Inv m small s v i h a t e
  release_at-Inv (some (waiting h a t)) e = same_share _ _ e (λ j. refl)
  release_at-Inv (some (roused h a t)) e = same_share _ _ e (λ j. refl)
  release_at-Inv (some (done h a t)) e = same_share _ _ e (λ j. refl)
  release_at-Inv (some refused) e = same_share _ _ e (λ j. refl)
  release_at-Inv (some exempt) e = same_share _ _ e (λ j. refl)

pub step-Inv : (m : ℕ) → suc m < word → (s : System) (e : Event) → Inv m s → Inv m (step s e)
unfolding step
step-Inv m small s (enters h tool) v = enter-Inv m small s h v tool
step-Inv m small s (wakes i) v = wake_at-Inv m small s v i (get_elem? s.calls i) refl
step-Inv m small s (releases i) v = release_at-Inv m small s v i (get_elem? s.calls i) refl

run-Inv : (m : ℕ) → suc m < word → (s : System) (es : List Event) → Inv m s → Inv m (run s es)
unfolding run
run-Inv m small s [] v = v
run-Inv m small s (e ∷ es) v = run-Inv m small (step s e) es (step-Inv m small s e v)

pub run-start-Inv :
    (m : ℕ) (parallel : Option (Str → Bool)) (es : List Event)
    → suc m < word
    → Inv m (run (start (pos (suc m)) parallel) es)
unfolding start live lookup
run-start-Inv m parallel es small =
    run-Inv m small (start (pos (suc m)) parallel) es
      (record { limited = refl; apart = λ h j a p q. absurd (cc p); good = λ h. refl })
