-- ===== src/Serialize/Roused.antt =====
-- The condition variable of internal/serialize/serialize.go: no call is left in `cond.Wait` while
-- its ticket is the one being served.
use ocu_mcp_gateway.Base.{
  ℕ, zero, suc, ◌≡◌, ◌≢◌, refl, sym, ◌∙◌, List, [], ◌∷◌, ◌++◌, subst, eq_of_some, ℤ, Bool, pos, not,
  ◌&&◌, leb_ℤ, ap, inl, inr, Option, some, none, Str, get_elem?, get_or, set, get_or-set_ne,
  Bool-cases, ◌==◌, ==_iff, All, All-append, lookup,
}
use ocu_mcp_gateway.Serialize.{
  Gate, new_gate, gate_at, Serializer, Call, refused, exempt, waiting, roused, holding, done, rouse,
  broadcast, open_gate, queue_at, acquire, is_parallel, wake, release, System, Event, enters, wakes,
  releases, wake_at, release_at, step, run, start,
}

-- The ticket that the gate of address `a` serves.
abbrev serving_at : List Gate → ℕ → ℕ
serving_at heap a = (get_or heap a new_gate).serving

-- A call in `cond.Wait` has a ticket that is not served.
abbrev pub Parked : List Gate → Call → Type 0
Parked heap (waiting h a t) = serving_at heap a ≢ t
Parked heap (roused h a t) = Unit {0}
Parked heap (holding h a t) = Unit {0}
Parked heap (done h a t) = Unit {0}
Parked heap refused = Unit {0}
Parked heap exempt = Unit {0}

abbrev pub AllParked : System → Type 0
AllParked s = All (Parked s.serializer.heap) s.calls

serving_at-append :
    (heap : List Gate) (b : ℕ) → serving_at (heap ++ new_gate ∷ []) b ≡ serving_at heap b
serving_at-append [] zero = refl
serving_at-append [] (suc b) = refl
serving_at-append (g ∷ heap) zero = refl
serving_at-append (g ∷ heap) (suc b) = serving_at-append heap b

serving_at-set :
    (heap : List Gate) (a b : ℕ) (g : Gate)
    → g.serving ≡ serving_at heap a
    → serving_at (set heap a g) b ≡ serving_at heap b
serving_at-set [] a b g e = refl
serving_at-set (x ∷ heap) zero zero g e = e
serving_at-set (x ∷ heap) zero (suc b) g e = refl
serving_at-set (x ∷ heap) (suc a) zero g e = refl
serving_at-set (x ∷ heap) (suc a) (suc b) g e = serving_at-set heap a b g e

-- Where each gate serves what it served, the same calls are parked.
module _ (heap heap' : List Gate) (same : (b : ℕ) → serving_at heap' b ≡ serving_at heap b) where
  Parked-same : (c : Call) → Parked heap c → Parked heap' c
  Parked-same (waiting h a t) p = λ e. p (sym (same a) ∙ e)
  Parked-same (roused h a t) p = tt
  Parked-same (holding h a t) p = tt
  Parked-same (done h a t) p = tt
  Parked-same refused p = tt
  Parked-same exempt p = tt

  All-same : (cs : List Call) → All (Parked heap) cs → All (Parked heap') cs
  All-same [] p = tt
  All-same (c ∷ cs) p = (Parked-same c p.0, All-same cs p.1)

All-set :
    (heap : List Gate) (cs : List Call) (i : ℕ) (c : Call)
    → All (Parked heap) cs
    → Parked heap c
    → All (Parked heap) (set cs i c)
All-set heap [] i c p q = tt
All-set heap (d ∷ cs) zero c p q = (q, p.1)
All-set heap (d ∷ cs) (suc i) c p q = (p.0, All-set heap cs i c p.1 q)

All-get :
    (heap : List Gate) (cs : List Call) (i : ℕ) (c : Call)
    → All (Parked heap) cs
    → get_elem? cs i ≡ some c
    → Parked heap c
All-get heap [] i c p e = absurd (cc)
All-get heap (d ∷ cs) zero c p e = subst (Parked heap) (eq_of_some e) p.0
All-get heap (d ∷ cs) (suc i) c p e = All-get heap cs i c p.1 e

-- The call that takes a ticket or is refused.
module _ (s : Serializer) (hint : Str) (a : ℕ) where
  abbrev is_full : Bool
  is_full = not (leb_ℤ s.max_depth (pos 0)) && leb_ℤ s.max_depth (gate_at s a).depth

  queue_at-same : (b : ℕ) → serving_at (queue_at s hint a).0.heap b ≡ serving_at s.heap b
  unfolding queue_at
  queue_at-same b = elim (Bool-cases is_full) [
    | inl full ↦ rw full refl
    | inr fits ↦ rw fits (serving_at-set s.heap a b _ refl)
  ]

  queue_at-Parked : Parked (queue_at s hint a).0.heap (queue_at s hint a).1
  unfolding queue_at
  queue_at-Parked = elim (Bool-cases is_full) [
    | inl full ↦ rw full tt
    | inr fits ↦ elim (Bool-cases ((gate_at s a).serving == (gate_at s a).tickets)) [
      | inl turn ↦ rw (fits, turn) tt
      | inr behind ↦
          rw (fits, behind)
            (λ e. cc ((==_iff _ _).1 (sym (serving_at-set s.heap a a _ refl) ∙ e), behind))
    ]
  ]

open_gate-same :
    (s : Serializer) (hint : Str) (o : Option ℕ) (b : ℕ)
    → serving_at (open_gate s hint o).0.heap b ≡ serving_at s.heap b
open_gate-same s hint none b = serving_at-append s.heap b
open_gate-same s hint (some a) b = refl

acquire-Parked :
    (s : System) (hint tool : Str) → AllParked s → AllParked (step s (enters hint tool))
unfolding step acquire
acquire-Parked s hint tool p = elim (Bool-cases (is_parallel s.serializer.parallel tool)) [
  | inl parallel ↦ rw parallel (All-append _ s.calls (exempt ∷ []) p (tt, tt))
  | inr serial ↦
      let o = lookup hint s.serializer.gates in
      let z = (open_gate s.serializer hint o).0 in
      let a = (open_gate s.serializer hint o).1 in
      rw serial (
        All-append _ s.calls _
          (All-same s.serializer.heap (queue_at z hint a).0.heap
            (λ b. queue_at-same z hint a b ∙ open_gate-same s.serializer hint o b) s.calls p)
          (queue_at-Parked z hint a, tt))
]

wake-Parked : (s : Serializer) (c : Call) → Parked s.heap c → Parked s.heap (wake s c)
unfolding wake
wake-Parked s (roused h a t) p = elim (Bool-cases ((gate_at s a).serving == t)) [
  | inl turn ↦ rw turn tt
  | inr early ↦ rw early (λ e. absurd (cc ((==_iff _ _).1 e, early)))
]
wake-Parked s (waiting h a t) p = p
wake-Parked s (holding h a t) p = p
wake-Parked s (done h a t) p = p
wake-Parked s refused p = p
wake-Parked s exempt p = p

wake_at-Parked :
    (s : System) (i : ℕ) (o : Option Call)
    → get_elem? s.calls i ≡ o
    → AllParked s
    → AllParked (wake_at s i o)
wake_at-Parked s i none e p = p
wake_at-Parked s i (some c) e p =
    All-set s.serializer.heap s.calls i _ p
      (wake-Parked s.serializer c (All-get s.serializer.heap s.calls i c p e))

-- A broadcast rouses every call of the gate that moves on.
module _ (heap : List Gate) (a : ℕ) (g : Gate) where
  rouse-Parked : (c : Call) → Parked heap c → Parked (set heap a g) (rouse a c)
  rouse-Parked (waiting h b t) p = elim (Bool-cases (b == a)) [
    | inl here ↦ rw here tt
    | inr elsewhere ↦
        let same : get_or (set heap a g) b new_gate ≡ get_or heap b new_gate =
          get_or-set_ne heap a b g new_gate (λ e. cc ((==_iff b a).1 (sym e), elsewhere)) in
        rw elsewhere (λ e. p (ap (λ (x : Gate). x.serving) (sym same) ∙ e))
  ]
  rouse-Parked (roused h b t) p = tt
  rouse-Parked (holding h b t) p = tt
  rouse-Parked (done h b t) p = tt
  rouse-Parked refused p = tt
  rouse-Parked exempt p = tt

  broadcast-Parked :
      (cs : List Call) → All (Parked heap) cs → All (Parked (set heap a g)) (broadcast a cs)
  unfolding broadcast
  broadcast-Parked [] p = tt
  broadcast-Parked (c ∷ cs) p = (rouse-Parked c p.0, broadcast-Parked cs p.1)

release_at-Parked :
    (s : System) (i : ℕ) (o : Option Call)
    → get_elem? s.calls i ≡ o
    → AllParked s
    → AllParked (release_at s i o)
unfolding release
release_at-Parked s i none e p = p
release_at-Parked s i (some (holding h a t)) e p =
    All-set _ (broadcast a s.calls) i _ (broadcast-Parked s.serializer.heap a _ s.calls p) tt
release_at-Parked s i (some (waiting h a t)) e p =
    All-set _ s.calls i _ p (All-get s.serializer.heap s.calls i _ p e)
release_at-Parked s i (some (roused h a t)) e p = All-set _ s.calls i _ p tt
release_at-Parked s i (some (done h a t)) e p = All-set _ s.calls i _ p tt
release_at-Parked s i (some refused) e p = All-set _ s.calls i _ p tt
release_at-Parked s i (some exempt) e p = All-set _ s.calls i _ p tt

step-Parked : (s : System) (e : Event) → AllParked s → AllParked (step s e)
unfolding step
step-Parked s (enters hint tool) p = acquire-Parked s hint tool p
step-Parked s (wakes i) p = wake_at-Parked s i (get_elem? s.calls i) refl p
step-Parked s (releases i) p = release_at-Parked s i (get_elem? s.calls i) refl p

run-Parked : (s : System) (es : List Event) → AllParked s → AllParked (run s es)
unfolding run
run-Parked s [] p = p
run-Parked s (e ∷ es) p = run-Parked (step s e) es (step-Parked s e p)

-- After any history, a call in `cond.Wait` has a ticket that its gate does not serve.
pub parked :
    (bound : ℤ) (parallel : Option (Str → Bool)) (es : List Event) (i : ℕ) (h : Str) (a t : ℕ)
    → get_elem? (run (start bound parallel) es).calls i ≡ some (waiting h a t)
    → (gate_at (run (start bound parallel) es).serializer a).serving ≢ t
unfolding start
parked bound parallel es i h a t here =
    let s = run (start bound parallel) es in
    All-get s.serializer.heap s.calls i (waiting h a t) (run-Parked (start bound parallel) es tt)
      here
