-- ===== src/Serialize/Slots.antt =====
-- The queue of a session in internal/serialize/serialize.go: the calls that wait or run, oldest
-- first.
use mathlib.Core.List.{append-nil, append_assoc}
use ocu_mcp_gateway.Base.{
  ℕ, zero, suc, ◌+◌, ◌%◌, ◌<◌, ◌≡◌, refl, ap, Bool, true, false, List, [], ◌∷◌, ◌++◌, some, arith,
  Str, str_eq, if◌then◌else◌, length, get_elem?, set, take,
}
use ocu_mcp_gateway.Serialize.{
  Call, refused, exempt, waiting, roused, holding, done, word, rouse, broadcast,
}

pub record Slot : Type 0 where
  pub address : ℕ
  pub ticket : ℕ
  pub runs : Bool

-- What a call adds to the queue of session `h`.
abbrev pub share : Str → Call → List Slot
share h (waiting j a t) =
    if str_eq j h then record { address = a; ticket = t; runs = false } ∷ [] else []
share h (roused j a t) =
    if str_eq j h then record { address = a; ticket = t; runs = false } ∷ [] else []
share h (holding j a t) =
    if str_eq j h then record { address = a; ticket = t; runs = true } ∷ [] else []
share h refused = []
share h exempt = []
share h (done j a t) = []

unfoldable pub live : Str → List Call → List Slot
live h [] = []
live h (c ∷ cs) = share h c ++ live h cs

pub live-append :
    (h : Str) (cs : List Call) (c : Call) → live h (cs ++ c ∷ []) ≡ live h cs ++ share h c
unfolding live
live-append h [] c = simp append-nil
live-append h (d ∷ cs) c = simp (live-append h cs c, append_assoc)

-- To replace one call replaces its share where it stands.
pub live-set :
    (h : Str) (cs : List Call) (i : ℕ) (c c' : Call)
    → get_elem? cs i ≡ some c
    → (older younger : List Slot) × (live h cs ≡ older ++ (share h c ++ younger))
      × (live h (set cs i c') ≡ older ++ (share h c' ++ younger))
      × (older ≡ live h (take i cs))
unfolding live
live-set h [] i c c' e = absurd (cc)
live-set h (d ∷ cs) zero c c' e = ([], live h cs, ground arith, refl, refl)
live-set h (d ∷ cs) (suc i) c c' e =
    let (older, younger, p, q, r) = live-set h cs i c c' e in
    (share h d ++ older, younger, rw (p, append_assoc), rw (q, append_assoc), rw r)

share-rouse : (h : Str) (a : ℕ) (c : Call) → share h (rouse a c) ≡ share h c
share-rouse h a (waiting j b t) = ground arith
share-rouse h a (roused j b t) = refl
share-rouse h a (holding j b t) = refl
share-rouse h a refused = refl
share-rouse h a exempt = refl
share-rouse h a (done j b t) = refl

-- A broadcast moves no call in its queue.
pub live-set-broadcast :
    (h : Str) (a : ℕ) (cs : List Call) (i : ℕ) (c : Call)
    → live h (set (broadcast a cs) i c) ≡ live h (set cs i c)
unfolding live broadcast
live-set-broadcast h a [] i c = refl
live-set-broadcast h a (d ∷ cs) zero c = ap (λ xs. share h c ++ xs) (live-broadcast cs)
  where
    live-broadcast : (es : List Call) → live h (broadcast a es) ≡ live h es
    live-broadcast [] = refl
    live-broadcast (e ∷ es) = rw (share-rouse h a e, live-broadcast es) refl
live-set-broadcast h a (d ∷ cs) (suc i) c =
    rw (share-rouse h a d, live-set-broadcast h a cs i c) refl

-- The slots of a gate at address `a` hold its tickets in turn, from `s` on.
abbrev pub InTurn : ℕ → ℕ → List Slot → Type 0
InTurn a s [] = Unit {0}
InTurn a s (x ∷ xs) = (x.address ≡ a) × (x.ticket ≡ s) × InTurn a ((s + 1) % word) xs

abbrev pub AllWait : List Slot → Type 0
AllWait [] = Unit {0}
AllWait (x ∷ xs) = (x.runs ≡ false) × AllWait xs

-- Only the oldest may run.
abbrev pub OldestRuns : List Slot → Type 0
OldestRuns [] = Unit {0}
OldestRuns (x ∷ xs) = AllWait xs

pub InTurn-append :
    (a s : ℕ) (xs : List Slot) (x : Slot)
    → s < word
    → InTurn a s xs
    → x.address ≡ a
    → x.ticket ≡ (s + length xs) % word
    → InTurn a s (xs ++ x ∷ [])
InTurn-append a s [] x lt q e f = (e, omega arith, tt)
InTurn-append a s (y ∷ xs) x lt q e f =
    (q.0, q.1, InTurn-append a ((s + 1) % word) xs x (omega arith) q.2 e (omega arith))

pub InTurn-ticket :
    (a s : ℕ) (xs ys : List Slot) (x : Slot)
    → s < word
    → InTurn a s (xs ++ (x ∷ ys))
    → (x.ticket ≡ (s + length xs) % word) × (x.address ≡ a)
InTurn-ticket a s [] ys x lt q = (omega arith, q.0)
InTurn-ticket a s (y ∷ xs) ys x lt q =
    let (t, d) = InTurn-ticket a ((s + 1) % word) xs ys x (omega arith) q.2 in (omega arith, d)

pub AllWait-append :
    (xs : List Slot) (x : Slot) → AllWait xs → x.runs ≡ false → AllWait (xs ++ x ∷ [])
AllWait-append [] x q e = (e, tt)
AllWait-append (y ∷ xs) x q e = (q.0, AllWait-append xs x q.1 e)

pub AllWait-waits : (xs ys : List Slot) (x : Slot) → AllWait (xs ++ (x ∷ ys)) → x.runs ≡ false
AllWait-waits [] ys x q = q.0
AllWait-waits (y ∷ xs) ys x q = AllWait-waits xs ys x q.1
