-- ===== src/Serialize/Invariant.antt =====
-- internal/serialize/serialize.go: every step keeps each session's gate and queue in agreement.
use mathlib.Core.List.{append-nil}
use mathlib.Core.Path.{ap}
use ocu_mcp_gateway.Base.{
  ℕ, suc, ◌<◌, ◌≡◌, ◌≢◌, sym, false, List, [], ◌∷◌, ◌++◌, arith, length, length-append, pos, Option,
  some, none, Str, str_eq, lookup, get_or, set, get_or-set_ne, get_or-append, length-set, get_elem?,
}
use ocu_mcp_gateway.Serialize.{Gate, new_gate, Call, waiting, holding, System}
use ocu_mcp_gateway.Serialize.Slots.{Slot, share, live, live-append, live-set}
use ocu_mcp_gateway.Serialize.Queue.{IsQueue}

-- A session with no gate has no queue, and one with a gate has a queue that the gate counts.
abbrev pub GoodAt : ℕ → List Gate → Option ℕ → List Slot → Type 0
GoodAt m heap none xs = xs ≡ []
GoodAt m heap (some a) xs = (a < length heap) × IsQueue m a (get_or heap a new_gate) xs

-- For a positive bound `suc m` on the queue.
pub record Inv (m : ℕ) (s : System) : Type 0 where
  pub limited : s.serializer.max_depth ≡ pos (suc m)
  pub apart :
      (h j : Str) (a : ℕ)
      → lookup h s.serializer.gates ≡ some a
      → lookup j s.serializer.gates ≡ some a
      → h ≡ j
  pub good : (h : Str) → GoodAt m s.serializer.heap (lookup h s.serializer.gates) (live h s.calls)

-- A write at another address, and an allocation.
pub GoodAt-set :
    (m : ℕ) (heap : List Gate) (a : ℕ) (g : Gate) (o : Option ℕ) (xs : List Slot)
    → o ≢ some a
    → GoodAt m heap o xs
    → GoodAt m (set heap a g) o xs
GoodAt-set m heap a g none xs ne q = q
GoodAt-set m heap a g (some b) xs ne (lt, q) = (
  rw (length-set heap a g) lt,
  rw (get_or-set_ne heap a b g new_gate (λ e. ne (ap some (sym e)))) q,
)

pub GoodAt-append :
    (m : ℕ) (heap : List Gate) (g : Gate) (o : Option ℕ) (xs : List Slot)
    → GoodAt m heap o xs
    → GoodAt m (heap ++ g ∷ []) o xs
GoodAt-append m heap g none xs q = q
GoodAt-append m heap g (some b) xs (lt, q) = (
  omega (arith, lt, length-append heap (g ∷ [])),
  rw (get_or-append heap (g ∷ []) b new_gate lt) q,
)

pub share_other :
    (h j : Str) (a t : ℕ)
    → str_eq h j ≡ false
    → (share j (waiting h a t) ≡ []) × (share j (holding h a t) ≡ [])
share_other h j a t e = ground arith

pub live-append_nil :
    (j : Str) (cs : List Call) (c : Call) → share j c ≡ [] → live j (cs ++ c ∷ []) ≡ live j cs
live-append_nil j cs c e = rw (live-append j cs c, e) (append-nil _)

pub live-set_same :
    (j : Str) (cs : List Call) (i : ℕ) (c c' : Call)
    → get_elem? cs i ≡ some c
    → share j c' ≡ share j c
    → live j (set cs i c') ≡ live j cs
live-set_same j cs i c c' e f =
    let (older, younger, p, q, _) = live-set j cs i c c' e in rw (p, q, f)
