-- ===== src/Serialize/Order.antt =====
-- What internal/serialize/serialize.go promises: calls of a session run one at a time in arrival
-- order, the queue is bounded, a waiter whose turn it is is roused and let through, and no gate outlives
-- its queue.
use mathlib.Core.Path.{ap}
use mathlib.Core.Logic.{inl, inr}
use native.Mathlib.Decide.{dec_le}
use ocu_mcp_gateway.Base.{
  get_or-append_last, ℕ, zero, suc, ◌<◌, ◌≤◌, ◌≡◌, ◌≢◌, ◌↔◌, ◌⊎◌, refl, sym, ◌∙◌, subst, Bool, true,
  false, List, [], ◌∷◌, ◌++◌, arith, length, pos, Option, some, none, Str, str_eq_iff, str_eq_refl,
  lookup, get_elem?, take, Option-cases, Map,
}
use ocu_mcp_gateway.Serialize.{
  Gate, word, new_gate, gate_at, Call, refused, exempt, waiting, roused, holding, done, acquire,
  wake, queue_at, open_gate, is_parallel, contended, System, Event, run, start,
}
use ocu_mcp_gateway.Serialize.Slots.{Slot, share, live}
use ocu_mcp_gateway.Serialize.Queue.{IsQueue, oldest_runs}
use ocu_mcp_gateway.Serialize.Invariant.{GoodAt, Inv}
use ocu_mcp_gateway.Serialize.Enter.{
  queue_at-full, queue_at-idle, queue_at-behind, behind, counted_at,
}
use ocu_mcp_gateway.Serialize.Roused.{parked}
use ocu_mcp_gateway.Serialize.Leave.{Placed, placed, run-start-Inv}

-- The call waits or runs in session `h`.
abbrev pub Pending : Str → Call → Type 0
Pending h (waiting j a t) = j ≡ h
Pending h (roused j a t) = j ≡ h
Pending h (holding j a t) = j ≡ h
Pending h refused = ⊥
Pending h exempt = ⊥
Pending h (done j a t) = ⊥

Pending-share : (h : Str) (c : Call) → Pending h c → share h c ≢ []
Pending-share h (waiting j a t) p e = absurd (cc (e, (str_eq_iff j h).1 p))
Pending-share h (roused j a t) p e = absurd (cc (e, (str_eq_iff j h).1 p))
Pending-share h (holding j a t) p e = absurd (cc (e, (str_eq_iff j h).1 p))
Pending-share h refused p e = elim p [ ]
Pending-share h exempt p e = elim p [ ]
Pending-share h (done _ _ _) p e = elim p [ ]

share-Pending : (h : Str) (c : Call) → ¬ Pending h c → share h c ≡ []
share-Pending h (waiting j a t) n = ground (arith, str_eq_iff j h)
share-Pending h (roused j a t) n = ground (arith, str_eq_iff j h)
share-Pending h (holding j a t) n = ground (arith, str_eq_iff j h)
share-Pending h c n = refl

nil-of-append : (xs ys : List Slot) → xs ++ ys ≡ [] → (xs ≡ []) × (ys ≡ [])
nil-of-append [] ys e = (refl, e)
nil-of-append (x ∷ xs) ys e = absurd (cc)

live-take :
    (h : Str) (cs : List Call) (i k : ℕ) (c : Call)
    → i < k
    → get_elem? cs i ≡ some c
    → live h (take k cs) ≡ []
    → share h c ≡ []
unfolding live
live-take h [] i k c lt e q = absurd (cc)
live-take h (d ∷ cs) i zero c lt e q = elim lt [ ]
live-take h (d ∷ cs) zero (suc k) c lt e q =
    ground (arith, (nil-of-append (share h d) (live h (take k cs)) q).0)
live-take h (d ∷ cs) (suc i) (suc k) c lt e q =
    live-take h cs i k c (omega arith) e (nil-of-append (share h d) (live h (take k cs)) q).1

-- No call before position `k` waits or runs in session `h`.
abbrev pub NoneBefore : Str → ℕ → List Call → Type 0
NoneBefore h zero cs = Unit {0}
NoneBefore h (suc k) [] = Unit {0}
NoneBefore h (suc k) (c ∷ cs) = (¬ Pending h c) × NoneBefore h k cs

NoneBefore-live : (h : Str) (k : ℕ) (cs : List Call) → NoneBefore h k cs → live h (take k cs) ≡ []
unfolding live
NoneBefore-live h zero cs q = refl
NoneBefore-live h (suc k) [] q = refl
NoneBefore-live h (suc k) (c ∷ cs) (n, q) = rw (share-Pending h c n) (NoneBefore-live h k cs q)

module _ (m : ℕ) (parallel : Option (Str → Bool)) (es : List Event) (small : suc m < word) where
  abbrev reached : System
  reached = run (start (pos (suc m)) parallel) es

  -- With a positive bound on the queue, after any history: while a call of a session runs, no
  -- call of the session that came before it waits or runs.
  pub arrival_order :
      (h : Str) (i k a t : ℕ) (c : Call)
      → get_elem? (run (start (pos (suc m)) parallel) es).calls k ≡ some (holding h a t)
      → i < k
      → get_elem? (run (start (pos (suc m)) parallel) es).calls i ≡ some c
      → ¬ Pending h c
  arrival_order h i k a t c here lt there pending =
      let v : Inv m reached = run-start-Inv m parallel es small in
      let p : Placed m reached h k (record { address = a; ticket = t; runs = true }) refused =
        placed m small reached v k h _ (holding h a t) refused here (rw (str_eq_refl h)) in
      let first : p.older ≡ [] = oldest_runs m small a _ p.older p.younger _ p.queue refl in
      Pending-share h c pending (live-take h reached.calls i k c lt there (sym p.before ∙ first))

  -- The ticket of a waiting or roused call that no call of its session precedes is served.
  turn_first :
      (h : Str) (i a t : ℕ) (c : Call)
      → get_elem? reached.calls i ≡ some c
      → share h c ≡ record { address = a; ticket = t; runs = false } ∷ []
      → NoneBefore h i reached.calls
      → (gate_at reached.serializer a).serving ≡ t
  turn_first h i a t c here slot first =
      let v : Inv m reached = run-start-Inv m parallel es small in
      let p : Placed m reached h i (record { address = a; ticket = t; runs = false }) refused =
        placed m small reached v i h _ c refused here slot in
      let nothing : p.older ≡ [] = p.before ∙ NoneBefore-live h i reached.calls first in
      let q : IsQueue m a (gate_at reached.serializer a)
          (record { address = a; ticket = t; runs = false } ∷ p.younger) =
        subst
          (λ o.
            IsQueue m a (gate_at reached.serializer a)
              (o ++ (record { address = a; ticket = t; runs = false } ∷ p.younger)))
          nothing p.queue in
      ground (arith, q.turns)

  -- With a positive bound on the queue, after any history: a call that waits at its gate, or has
  -- been roused there and has not looked at it again, and that no call of its session precedes, is
  -- not left waiting: it has been roused, and finds its ticket served when it looks.
  pub turn_comes :
      (h : Str) (i a t : ℕ) (c : Call)
      → get_elem? (run (start (pos (suc m)) parallel) es).calls i ≡ some c
      → (c ≡ waiting h a t) ⊎ (c ≡ roused h a t)
      → NoneBefore h i (run (start (pos (suc m)) parallel) es).calls
      → (c ≡ roused h a t)
        × (wake (run (start (pos (suc m)) parallel) es).serializer c ≡ holding h a t)
  unfolding wake
  turn_comes h i a t c here (inl waits) first = absurd (
      parked (pos (suc m)) parallel es i h a t (here ∙ ap some waits)
        (turn_first h i a t c here (rw (waits, str_eq_refl h) refl) first))
  turn_comes h i a t c here (inr wakes) first = (
    wakes,
    rw wakes (ground (arith, turn_first h i a t c here (rw (wakes, str_eq_refl h) refl) first)),
  )

  bounded_at :
      (h : Str) (o : Option ℕ) (heap : List Gate)
      → GoodAt m heap o (live h reached.calls)
      → (length (live h reached.calls) ≤ suc m) × ((o ≡ none) ↔ (live h reached.calls ≡ []))
  bounded_at h none heap q = (omega (arith, ap length q), ((λ _. q), (λ _. refl)))
  bounded_at h (some a) heap (lt, q) =
      (q.bounded, ((λ e. absurd (cc)), (λ e. absurd (omega (arith, q.busy, ap length e)))))

  -- With a positive bound `suc m`, after any history: at most `suc m` calls of a session wait or
  -- run, and the session has an entry in the map exactly while some do.
  pub queue_bounded :
      (h : Str)
      → let s = run (start (pos (suc m)) parallel) es in
        (length (live h s.calls) ≤ suc m)
        × ((lookup h s.serializer.gates ≡ none) ↔ (live h s.calls ≡ []))
  queue_bounded h =
      let v : Inv m reached = run-start-Inv m parallel es small in
      bounded_at h (lookup h reached.serializer.gates) reached.serializer.heap (v.good h)

  refused_first :
      (h : Str)
      → lookup h reached.serializer.gates ≡ none
      → (queue_at (open_gate reached.serializer h none).0 h (length reached.serializer.heap)).1
        ≢ refused
  refused_first h e =
      let v : Inv m reached = run-start-Inv m parallel es small in
      let at : gate_at (open_gate reached.serializer h none).0 (length reached.serializer.heap)
          ≡ new_gate =
        get_or-append_last reached.serializer.heap new_gate new_gate in
      rw
        (queue_at-idle m (open_gate reached.serializer h none).0 h (length reached.serializer.heap)
          v.limited (ap (λ (g : Gate). g.depth) at)
          (ap (λ (g : Gate). g.serving) at ∙ sym (ap (λ (g : Gate). g.tickets) at)))
        (λ e. cc)

  refused_found :
      (h : Str) (a : ℕ)
      → lookup h reached.serializer.gates ≡ some a
      → ((queue_at reached.serializer h a).1 ≡ refused) ↔ (length (live h reached.calls) ≡ suc m)
  refused_found h a found =
      let v : Inv m reached = run-start-Inv m parallel es small in
      let (lt, q) = counted_at m small reached h v a found in
      elim (dec_le (length (live h reached.calls)) m) [
        | yes le ↦
            rw
              (queue_at-behind m reached.serializer h a v.limited (length (live h reached.calls))
                q.counted le (behind m small reached h v a found le))
              ((λ e. absurd (cc)), (λ e. absurd (omega arith)))
        | no gt ↦
            rw
              (queue_at-full m reached.serializer h a v.limited (length (live h reached.calls))
                q.counted (omega arith))
              ((λ e. omega (arith, q.bounded)), (λ e. refl))
      ]

  -- With a positive bound `suc m`, after any history: a call of a tool that is not parallel is
  -- refused exactly when `suc m` calls of its session wait or run.
  pub refused_iff :
      (h tool : Str)
      → is_parallel (run (start (pos (suc m)) parallel) es).serializer.parallel tool ≡ false
      → let s = run (start (pos (suc m)) parallel) es in
        ((acquire s.serializer h tool).1 ≡ refused) ↔ (length (live h s.calls) ≡ suc m)
  unfolding acquire
  refused_iff h tool serial = elim (Option-cases (lookup h reached.serializer.gates)) [
    | inl missing ↦
        rw (serial, missing)
          (
            (λ e. absurd (refused_first h missing e)),
            (λ e. absurd (omega (arith, e, ap length ((queue_bounded h).1.0 missing)))),
          )
    | inr (a, found) ↦ rw (serial, found) (refused_found h a found)
  ]

  no_entries : (g : Map ℕ) → ((h : Str) → lookup h g ≡ none) → length g ≡ 0
  unfolding lookup
  no_entries [] e = refl
  no_entries ((h, a) ∷ g) e = absurd (cc (e h, str_eq_refl h))

  -- With a positive bound, after any history: once no call of any session waits or runs, no
  -- session is contended.
  pub contended_idle :
      ((h : Str) → live h (run (start (pos (suc m)) parallel) es).calls ≡ [])
      → contended (run (start (pos (suc m)) parallel) es).serializer ≡ 0
  unfolding contended
  contended_idle idle = no_entries reached.serializer.gates (λ h. (queue_bounded h).1.1 (idle h))
