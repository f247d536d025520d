-- ===== src/Serialize/Enter.antt =====
-- `Acquire` of internal/serialize/serialize.go up to the wait: each branch, and that it keeps
-- gates and queues in agreement.
use mathlib.Core.Path.{ap}
use native.Mathlib.Decide.{dec_le}
use ocu_mcp_gateway.Base.{
  ℕ, suc, ◌+◌, ◌%◌, ◌<◌, ◌≤◌, ◌≡◌, ◌≢◌, refl, sym, ◌∙◌, subst, true, false, [], ◌∷◌, ◌++◌, arith,
  length, length-append, pos, incr, inl, inr, some, none, Str, str_eq, str_eq_iff, str_eq_refl,
  lookup, insert, lookup-insert, set, get_or-set_self, get_or-append_last, length-set, Option-cases,
  Bool-cases,
}
use ocu_mcp_gateway.Serialize.{
  Gate, word, new_gate, gate_at, Serializer, Call, refused, exempt, waiting, holding, open_gate,
  queue_at, acquire, is_parallel, System,
}
use ocu_mcp_gateway.Serialize.Slots.{share, live, live-append}
use ocu_mcp_gateway.Serialize.Queue.{IsQueue, join-IsQueue}
use ocu_mcp_gateway.Serialize.Invariant.{
  GoodAt, Inv, GoodAt-set, GoodAt-append, share_other, live-append_nil,
}

abbrev with_gate : Serializer → ℕ → Gate → Serializer
with_gate s a g = record s { heap = set s.heap a g }

abbrev ticketed : Gate → Gate
ticketed g = record g { tickets = (g.tickets + 1) % word; depth = incr g.depth }

-- The branches of the bound check for a positive bound.
module _ (m : ℕ) (s : Serializer) (h : Str) (a : ℕ) (limited : s.max_depth ≡ pos (suc m)) where
  pub queue_at-full : (n : ℕ) → (gate_at s a).depth ≡ pos n → m < n → queue_at s h a ≡ (s, refused)
  unfolding queue_at
  queue_at-full n e lt = ground arith

  pub queue_at-idle :
      (gate_at s a).depth ≡ pos 0
      → (gate_at s a).serving ≡ (gate_at s a).tickets
      → queue_at s h a ≡ (with_gate s a (ticketed (gate_at s a)), holding h a (gate_at s a).tickets)
  unfolding queue_at
  queue_at-idle e f = ground arith

  pub queue_at-behind :
      (n : ℕ)
      → (gate_at s a).depth ≡ pos n
      → n ≤ m
      → (gate_at s a).serving ≢ (gate_at s a).tickets
      → queue_at s h a ≡ (with_gate s a (ticketed (gate_at s a)), waiting h a (gate_at s a).tickets)
  unfolding queue_at
  queue_at-behind n e le ne = ground arith

-- The system after a call that came out as `r`.
abbrev pub entered : System → Serializer × Call → System
entered s (z, c) = record { serializer = z; calls = s.calls ++ c ∷ [] }

-- A call that takes no ticket.
entered-Inv_same :
    (m : ℕ) (s : System) (c : Call)
    → ((j : Str) → share j c ≡ [])
    → Inv m s
    → Inv m (entered s (s.serializer, c))
entered-Inv_same m s c e v = record {
  limited = v.limited;
  apart = v.apart;
  good = λ j. rw (live-append_nil j s.calls c (e j)) (v.good j);
}

module _ (m : ℕ) (small : suc m < word) (s : System) (h : Str) (v : Inv m s) where
  open s use {serializer as z, calls}

  -- A first call: the gate is allocated, and the call goes through with ticket 0.
  abbrev fresh : Serializer
  fresh = (open_gate z h none).0

  abbrev first_gate : Gate
  first_gate = ticketed new_gate

  first-IsQueue :
      IsQueue m
        (length z.heap)
        first_gate
        (record { address = length z.heap; ticket = 0; runs = true } ∷ [])
  first-IsQueue = record {
    turns = (refl, refl, tt);
    oldest = tt;
    counted = refl;
    busy = omega arith;
    bounded = omega arith;
    next = refl;
    in_word = omega arith;
  }

  no_pointer : (j : Str) → lookup j z.gates ≢ some (length z.heap)
  no_pointer j e =
      absurd (omega (arith, (subst (λ o. GoodAt m z.heap o (live j calls)) e (v.good j)).0))

  no_queue : lookup h z.gates ≡ none → live h calls ≡ []
  no_queue e = subst (λ o. GoodAt m z.heap o (live h calls)) e (v.good h)

  first-good_self :
      lookup h z.gates ≡ none
      → GoodAt m
          (set (z.heap ++ new_gate ∷ []) (length z.heap) first_gate)
          (lookup h (insert h (length z.heap) z.gates))
          (live h (calls ++ holding h (length z.heap) 0 ∷ []))
  first-good_self missing =
      rw
        (
          lookup-insert h h (length z.heap) z.gates,
          live-append h calls (holding h (length z.heap) 0),
          str_eq_refl h,
          no_queue missing,
        )
        (
          rw (length-set (z.heap ++ new_gate ∷ []) (length z.heap) first_gate)
              (omega (arith, length-append z.heap (new_gate ∷ []))),
          rw
              (get_or-set_self (z.heap ++ new_gate ∷ []) (length z.heap) first_gate new_gate
                (omega (arith, length-append z.heap (new_gate ∷ []))))
              first-IsQueue,
        )

  first-good :
      lookup h z.gates ≡ none
      → (j : Str)
      → GoodAt m
          (set (z.heap ++ new_gate ∷ []) (length z.heap) first_gate)
          (lookup j (insert h (length z.heap) z.gates))
          (live j (calls ++ holding h (length z.heap) 0 ∷ []))
  first-good missing j = elim (Bool-cases (str_eq h j)) [
    | inl same ↦
        subst
          (λ k.
            GoodAt m (set (z.heap ++ new_gate ∷ []) (length z.heap) first_gate)
              (lookup k (insert h (length z.heap) z.gates))
              (live k (calls ++ holding h (length z.heap) 0 ∷ [])))
          ((str_eq_iff h j).0 same) (first-good_self missing)
    | inr other ↦
        rw
          (
            lookup-insert h j (length z.heap) z.gates,
            other,
            live-append_nil j calls (holding h (length z.heap) 0)
                (share_other h j (length z.heap) 0 other).1,
          )
          (GoodAt-set m _ _ first_gate (lookup j z.gates) _ (no_pointer j)
            (GoodAt-append m z.heap new_gate _ _ (v.good j)))
  ]

  first-apart :
      (j k : Str) (a : ℕ)
      → lookup j (insert h (length z.heap) z.gates) ≡ some a
      → lookup k (insert h (length z.heap) z.gates) ≡ some a
      → j ≡ k
  first-apart j k a e f = ground (
    arith,
    e,
    f,
    lookup-insert h j (length z.heap) z.gates,
    lookup-insert h k (length z.heap) z.gates,
    str_eq_iff h j,
    str_eq_iff h k,
    no_pointer j,
    no_pointer k,
    v.apart j k a,
  )

  enter_first : lookup h z.gates ≡ none → Inv m (entered s (queue_at fresh h (length z.heap)))
  enter_first missing =
      let at : gate_at fresh (length z.heap) ≡ new_gate =
        get_or-append_last z.heap new_gate new_gate in
      rw
        (
          queue_at-idle m fresh h (length z.heap) v.limited (ap (λ (g : Gate). g.depth) at)
              (ap (λ (g : Gate). g.serving) at ∙ sym (ap (λ (g : Gate). g.tickets) at)),
          at,
        )
        (record { limited = v.limited; apart = first-apart; good = first-good missing })

  -- A call that waits behind others.
  module _ (a : ℕ) (found : lookup h z.gates ≡ some a) where
    pub counted_at : GoodAt m z.heap (some a) (live h calls)
    counted_at = subst (λ o. GoodAt m z.heap o (live h calls)) found (v.good h)

    others : (j : Str) → str_eq h j ≡ false → lookup j z.gates ≢ some a
    others j other e = absurd (cc (sym ((str_eq_iff h j).1 (v.apart h j a found e)), other))

    join-good_self :
        length (live h calls) ≤ m
        → GoodAt m
            (set z.heap a (ticketed (gate_at z a)))
            (lookup h z.gates)
            (live h (calls ++ waiting h a (gate_at z a).tickets ∷ []))
    join-good_self le =
        let (lt, q) = counted_at in
        rw (found, live-append h calls (waiting h a (gate_at z a).tickets), str_eq_refl h)
          (
            rw (length-set z.heap a (ticketed (gate_at z a))) lt,
            rw (get_or-set_self z.heap a (ticketed (gate_at z a)) new_gate lt)
                (join-IsQueue m small a (gate_at z a) (live h calls) q le),
          )

    join-good :
        length (live h calls) ≤ m
        → (j : Str)
        → GoodAt m
            (set z.heap a (ticketed (gate_at z a)))
            (lookup j z.gates)
            (live j (calls ++ waiting h a (gate_at z a).tickets ∷ []))
    join-good le j = elim (Bool-cases (str_eq h j)) [
      | inl same ↦
          subst
            (λ k.
              GoodAt m (set z.heap a (ticketed (gate_at z a))) (lookup k z.gates)
                (live k (calls ++ waiting h a (gate_at z a).tickets ∷ [])))
            ((str_eq_iff h j).0 same) (join-good_self le)
      | inr other ↦
          rw
            (live-append_nil j calls (waiting h a (gate_at z a).tickets)
              (share_other h j a (gate_at z a).tickets other).0)
            (GoodAt-set m z.heap a _ (lookup j z.gates) _ (others j other) (v.good j))
    ]

    -- The ticket of a call that joins a queue within the bound is not the one being served.
    pub behind : length (live h calls) ≤ m → (gate_at z a).serving ≢ (gate_at z a).tickets
    behind le e = let (lt, q) = counted_at in absurd (omega (arith, e, q.next, q.in_word, q.busy))

    enter_found : Inv m (entered s (queue_at z h a))
    enter_found = elim (dec_le (length (live h calls)) m) [
      | yes le ↦
          rw
            (queue_at-behind m z h a v.limited (length (live h calls)) counted_at.1.counted le
              (behind le))
            (record { limited = v.limited; apart = v.apart; good = join-good le })
      | no gt ↦
          rw
            (queue_at-full m z h a v.limited (length (live h calls)) counted_at.1.counted
              (omega arith))
            (entered-Inv_same m s refused (λ j. refl) v)
    ]

  pub enter-Inv : (tool : Str) → Inv m (entered s (acquire z h tool))
  unfolding acquire
  enter-Inv tool = elim (Bool-cases (is_parallel z.parallel tool)) [
    | inl free ↦ rw free (entered-Inv_same m s exempt (λ j. refl) v)
    | inr serial ↦ elim (Option-cases (lookup h z.gates)) [
      | inl missing ↦ rw (serial, missing) (enter_first missing)
      | inr (a, found) ↦ rw (serial, found) (enter_found a found)
    ]
  ]
