-- ===== src/Serialize/Queue.antt =====
-- One gate of internal/serialize/serialize.go against the queue of its session: what a new
-- ticket, a wake-up and a release do to the pair.
use ocu_mcp_gateway.Base.{
  ℕ, suc, ◌+◌, ◌%◌, ◌<◌, ◌≤◌, ◌≡◌, refl, true, false, List, [], ◌∷◌, ◌++◌, arith, length,
  length-append, pos, incr, decr,
}
use ocu_mcp_gateway.Serialize.{Gate, word}
use ocu_mcp_gateway.Serialize.Slots.{
  Slot, InTurn, AllWait, OldestRuns, InTurn-append, InTurn-ticket, AllWait-append, AllWait-waits,
}

-- The gate at address `a` counts a queue of at most `suc m` slots, not empty, whose tickets are
-- consecutive from the one being served, and of which at most the oldest runs.
pub record IsQueue (m a : ℕ) (g : Gate) (xs : List Slot) : Type 0 where
  pub turns : InTurn a g.serving xs
  pub oldest : OldestRuns xs
  pub counted : g.depth ≡ pos (length xs)
  pub busy : 0 < length xs
  pub bounded : length xs ≤ suc m
  pub next : g.tickets ≡ (g.serving + length xs) % word
  pub in_word : g.serving < word

module _ (m : ℕ) (small : suc m < word) where
  pub join-IsQueue :
      (a : ℕ) (g : Gate) (xs : List Slot)
      → IsQueue m a g xs
      → length xs ≤ m
      → IsQueue m a
          (record g { tickets = (g.tickets + 1) % word; depth = incr g.depth })
          (xs ++ record { address = a; ticket = g.tickets; runs = false } ∷ [])
  join-IsQueue a g [] q le = absurd (omega (arith, q.busy))
  join-IsQueue a g (x ∷ xs) q le = record {
    turns = InTurn-append a g.serving (x ∷ xs) _ q.in_word q.turns refl q.next;
    oldest = AllWait-append xs _ q.oldest refl;
    counted = ground (
      arith,
      q.counted,
      length-append xs (record { address = a; ticket = g.tickets; runs = false } ∷ []),
    );
    busy = omega arith;
    bounded =
        omega
          (arith, length-append xs (record { address = a; ticket = g.tickets; runs = false } ∷ []));
    next = omega (
      arith,
      q.next,
      length-append xs (record { address = a; ticket = g.tickets; runs = false } ∷ []),
    );
    in_word = q.in_word;
  }

  -- A ticket that is not the oldest is not the one being served.
  pub oldest_served :
      (a : ℕ) (g : Gate) (older younger : List Slot) (x : Slot)
      → IsQueue m a g (older ++ (x ∷ younger))
      → x.ticket ≡ g.serving
      → older ≡ []
  oldest_served a g [] younger x q e = refl
  oldest_served a g (o ∷ older) younger x q e = absurd (
      omega (
        arith,
        e,
        q.bounded,
        q.in_word,
        (InTurn-ticket a g.serving (o ∷ older) younger x q.in_word q.turns).0,
        length-append older (x ∷ younger),
      ))

  pub served_address :
      (a : ℕ) (g : Gate) (older younger : List Slot) (x : Slot)
      → IsQueue m a g (older ++ (x ∷ younger))
      → x.address ≡ a
  served_address a g older younger x q =
      (InTurn-ticket a g.serving older younger x q.in_word q.turns).1

  pub oldest_runs :
      (a : ℕ) (g : Gate) (older younger : List Slot) (x : Slot)
      → IsQueue m a g (older ++ (x ∷ younger))
      → x.runs ≡ true
      → older ≡ []
  oldest_runs a g [] younger x q e = refl
  oldest_runs a g (o ∷ older) younger x q e =
      absurd (cc (e, AllWait-waits older younger x q.oldest))

  pub wake-IsQueue :
      (a t : ℕ) (g : Gate) (xs : List Slot)
      → IsQueue m a g (record { address = a; ticket = t; runs = false } ∷ xs)
      → IsQueue m a g (record { address = a; ticket = t; runs = true } ∷ xs)
  wake-IsQueue a t g xs q = record {
    turns = q.turns;
    oldest = q.oldest;
    counted = q.counted;
    busy = q.busy;
    bounded = q.bounded;
    next = q.next;
    in_word = q.in_word;
  }

  AllWait-OldestRuns : (xs : List Slot) → AllWait xs → OldestRuns xs
  AllWait-OldestRuns [] q = tt
  AllWait-OldestRuns (x ∷ xs) q = q.1

  pub leave-IsQueue :
      (a : ℕ) (g : Gate) (x y : Slot) (xs : List Slot)
      → IsQueue m a g (x ∷ y ∷ xs)
      → IsQueue m a (record g { serving = (g.serving + 1) % word; depth = decr g.depth }) (y ∷ xs)
  leave-IsQueue a g x y xs q = record {
    turns = q.turns.2;
    oldest = AllWait-OldestRuns (y ∷ xs) q.oldest;
    counted = ground (arith, q.counted);
    busy = omega arith;
    bounded = omega (arith, q.bounded);
    next = omega (arith, q.next, q.in_word);
    in_word = omega arith;
  }
