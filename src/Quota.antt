-- ===== src/Quota.antt =====
-- internal/quota/ceiling.go: the per-caller bound on requests in flight.
-- `counts` is the guarded map, a missing key reads as 0; each call of `Acquire` and of the
-- function that it returns is one step under the mutex.
pub mod Held
pub mod Invariant
mod Tests
use ocu_mcp_gateway.Base.{
  ℕ, Bool, true, false, List, [], ◌∷◌, ◌++◌, Option, none, some, Result, ok, err, ℤ, pos, incr,
  decr, leb_ℤ, if◌then◌else◌, Str, Map, lookup, insert, delete, get_elem?, set,
}

pub record Ceiling : Type 0 where
  pub limit : ℤ
  pub counts : Map ℤ

pub data Error : Type 0 where
  ceiling_exceeded : Error

-- The function that `Acquire` returns: the no-op of an unlimited ceiling, or the closure over
-- the caller's key and its flag `released`.
pub data Release : Type 0 where
  noop : Release
  closure : Str → Bool → Release

unfoldable pub new_ceiling : ℤ → Ceiling
new_ceiling limit = record { limit = limit; counts = [] }

abbrev pub or_zero : Option ℤ → ℤ
or_zero none = pos 0
or_zero (some n) = n

-- `c.counts[callerKey]`.
unfoldable pub in_flight : Ceiling → Str → ℤ
in_flight c key = or_zero (lookup key c.counts)

unfoldable pub acquire : Ceiling → Str → Result Error (Ceiling × Release)
unfolding in_flight
acquire c key =
    if leb_ℤ c.limit (pos 0)
    then ok (c, noop)
    else if leb_ℤ c.limit (in_flight c key)
    then err ceiling_exceeded
    else ok (record c { counts = insert key (incr (in_flight c key)) c.counts }, closure key false)

-- `c.counts[callerKey]--`, and the entry is deleted once it is not positive.
unfoldable pub give_back : Ceiling → Str → Ceiling
unfolding in_flight
give_back c key =
    let n = decr (in_flight c key) in
    let counts = insert key n c.counts in
    record c { counts = if leb_ℤ n (pos 0) then delete key counts else counts }

-- A call of the returned function; its flag is set on the first call.
unfoldable pub release : Ceiling → Release → Ceiling × Release
unfolding give_back
release c noop = (c, noop)
release c (closure key true) = (c, closure key true)
release c (closure key false) = (give_back c key, closure key true)

-- A ceiling with every function that it has handed out, in the order of the acquisitions.
pub record System : Type 0 where
  pub ceiling : Ceiling
  pub grants : List Release

-- Callers acquire, and call a function that they were given, once or again.
pub data Event : Type 0 where
  acquires : Str → Event
  releases : ℕ → Event

abbrev pub after_acquire : System → Result Error (Ceiling × Release) → System
after_acquire s (ok (c, g)) = record { ceiling = c; grants = s.grants ++ g ∷ [] }
after_acquire s (err e) = s

abbrev pub release_at : System → ℕ → Option Release → System
release_at s i none = s
release_at s i (some g) =
    let (c, g') = release s.ceiling g in record { ceiling = c; grants = set s.grants i g' }

unfoldable pub step : System → Event → System
step s (acquires key) = after_acquire s (acquire s.ceiling key)
step s (releases i) = release_at s i (get_elem? s.grants i)

unfoldable pub run : System → List Event → System
run s [] = s
run s (e ∷ es) = run (step s e) es

unfoldable pub start : ℤ → System
unfolding new_ceiling
start limit = record { ceiling = new_ceiling limit; grants = [] }
