-- ===== src/Serialize.antt =====
-- internal/serialize/serialize.go: one gate for each session, entered in ticket order.
-- Gates live on a heap, since a release function keeps its pointer while the map forgets the
-- gate; an address is a position in the heap. `Acquire` holds the mutex up to `cond.Wait` and
-- from there on, so a call is two steps, `enters` and `wakes`. `cond.Wait` returns only once a
-- `Broadcast` has come, so `wakes` moves a call that a release has roused, and no other.
-- The depth is a Go int, tickets are uint64 and wrap.
pub mod Slots
pub mod Queue
pub mod Invariant
pub mod Enter
pub mod Roused
pub mod Leave
pub mod Order
mod Tests
use ocu_mcp_gateway.Base.{
  ℕ, ◌+◌, ◌%◌, ◌^◌, Bool, true, false, not, ◌&&◌, List, [], ◌∷◌, ◌++◌, Option, none, some, ℤ, pos,
  incr, decr, leb_ℤ, is_zero, ◌==◌, if◌then◌else◌, Str, Map, lookup, insert, delete, length,
  get_elem?, get_or, set,
}

pub record Gate : Type 0 where
  pub tickets : ℕ
  pub serving : ℕ
  pub depth : ℤ

pub record Serializer : Type 0 where
  pub max_depth : ℤ
  pub parallel : Option (Str → Bool)
  pub heap : List Gate
  pub gates : Map ℕ

-- What has become of a call of `Acquire`: refused; let through as parallel, with a release
-- function that does nothing; waiting in `cond.Wait` at a gate; roused by a broadcast and to look at
-- the gate again; or returned, with its release function not yet
-- called or called. The fields are the session, the gate's address and the ticket.
pub data Call : Type 0 where
  refused exempt : Call
  waiting roused holding done : Str → ℕ → ℕ → Call

abbrev pub word : ℕ
word = 2 ^ 64

abbrev pub new_gate : Gate
new_gate = record { tickets = 0; serving = 0; depth = pos 0 }

unfoldable pub new_serializer : ℤ → Option (Str → Bool) → Serializer
new_serializer max_depth parallel = record {
  max_depth = max_depth;
  parallel = parallel;
  heap = [];
  gates = [];
}

-- `s.parallel != nil && s.parallel(toolName)`.
abbrev pub is_parallel : Option (Str → Bool) → Str → Bool
is_parallel none tool = false
is_parallel (some p) tool = p tool

-- The gate of a session, with a new one allocated and entered in the map if there is none.
abbrev pub open_gate : Serializer → Str → Option ℕ → Serializer × ℕ
open_gate s hint (some a) = (s, a)
open_gate s hint none =
    let a = length s.heap in
    (record s { heap = s.heap ++ new_gate ∷ []; gates = insert hint a s.gates }, a)

abbrev pub gate_at : Serializer → ℕ → Gate
gate_at s a = get_or s.heap a new_gate

-- The bound check and the ticket, at the gate of address `a`.
unfoldable pub queue_at : Serializer → Str → ℕ → Serializer × Call
queue_at s hint a =
    let g = gate_at s a in
    if not (leb_ℤ s.max_depth (pos 0)) && leb_ℤ s.max_depth g.depth
    then (record s { gates = if is_zero g.depth then delete hint s.gates else s.gates }, refused)
    else (
      record s {
        heap = set s.heap a (record g { tickets = (g.tickets + 1) % word; depth = incr g.depth });
      },
      (if g.serving == g.tickets then holding hint a g.tickets else waiting hint a g.tickets),
    )

unfoldable pub acquire : Serializer → Str → Str → Serializer × Call
unfolding queue_at
acquire s hint tool =
    if is_parallel s.parallel tool
    then (s, exempt)
    else (let (s', a) = open_gate s hint (lookup hint s.gates) in queue_at s' hint a)

-- `for g.serving != myTicket { g.cond.Wait() }`, where `Wait` has returned.
unfoldable pub wake : Serializer → Call → Call
wake s (roused hint a t) = if (gate_at s a).serving == t then holding hint a t else waiting hint a t
wake s c = c

-- `g.cond.Broadcast()` for the gate of address `a`: every call that waits there is roused.
abbrev pub rouse : ℕ → Call → Call
rouse a (waiting hint b t) = if b == a then roused hint b t else waiting hint b t
rouse a c = c

unfoldable pub broadcast : ℕ → List Call → List Call
broadcast a [] = []
broadcast a (c ∷ cs) = rouse a c ∷ broadcast a cs

-- A call of the returned function, with all calls made so far. `done` is its flag `released`.
unfoldable pub release : Serializer → List Call → Call → Serializer × List Call × Call
release s calls (holding hint a t) =
    let g = gate_at s a in
    let depth = decr g.depth in
    (
      record s {
        heap = set s.heap a (record g { serving = (g.serving + 1) % word; depth = depth });
        gates = if is_zero depth then delete hint s.gates else s.gates;
      },
      broadcast a calls,
      done hint a t,
    )
release s calls c = (s, calls, c)

unfoldable pub contended : Serializer → ℕ
contended s = length s.gates

-- The serializer with every call made so far, in order of arrival.
pub record System : Type 0 where
  pub serializer : Serializer
  pub calls : List Call

pub data Event : Type 0 where
  enters : Str → Str → Event
  wakes releases : ℕ → Event

abbrev pub wake_at : System → ℕ → Option Call → System
wake_at s i none = s
wake_at s i (some c) = record s { calls = set s.calls i (wake s.serializer c) }

abbrev pub release_at : System → ℕ → Option Call → System
release_at s i none = s
release_at s i (some c) =
    let (z, calls, c') = release s.serializer s.calls c in
    record { serializer = z; calls = set calls i c' }

unfoldable pub step : System → Event → System
step s (enters hint tool) =
    let (z, c) = acquire s.serializer hint tool in
    record { serializer = z; calls = s.calls ++ c ∷ [] }
step s (wakes i) = wake_at s i (get_elem? s.calls i)
step s (releases i) = release_at s i (get_elem? s.calls i)

unfoldable pub run : System → List Event → System
run s [] = s
run s (e ∷ es) = run (step s e) es

unfoldable pub start : ℤ → Option (Str → Bool) → System
unfolding new_serializer
start max_depth parallel = record { serializer = new_serializer max_depth parallel; calls = [] }
