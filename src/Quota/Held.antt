-- ===== src/Quota/Held.antt =====
-- The specification of internal/quota/ceiling.go: how many granted acquisitions of a key have
-- not been released yet.
use ocu_mcp_gateway.Base.{
  ℕ, zero, suc, ◌+◌, ◌≡◌, true, false, List, [], ◌∷◌, ◌++◌, some, arith, Str, str_eq, if◌then◌else◌,
  get_elem?, set,
}
use ocu_mcp_gateway.Quota.{Release, noop, closure}

-- 1 for a function of `key` that has not been called.
abbrev pub holds : Str → Release → ℕ
holds key noop = 0
holds key (closure j true) = 0
holds key (closure j false) = if str_eq j key then 1 else 0

unfoldable pub held : Str → List Release → ℕ
held key [] = 0
held key (g ∷ gs) = holds key g + held key gs

pub held-append :
    (key : Str) (gs : List Release) (g : Release)
    → held key (gs ++ g ∷ []) ≡ held key gs + holds key g
unfolding held
held-append key [] g = ground arith
held-append key (h ∷ gs) g = ground (arith, held-append key gs g)

-- To replace one function exchanges its share.
pub held-set :
    (key : Str) (gs : List Release) (i : ℕ) (g g' : Release)
    → get_elem? gs i ≡ some g
    → held key (set gs i g') + holds key g ≡ held key gs + holds key g'
unfolding held
held-set key [] i g g' e = ground arith
held-set key (h ∷ gs) zero g g' e = ground arith
held-set key (h ∷ gs) (suc i) g g' e = ground (arith, held-set key gs i g g')
