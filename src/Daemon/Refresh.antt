-- ===== src/Daemon/Refresh.antt =====
-- cmd/ocu-mcp-gatewayd/main.go, internal/boot/boot.go and internal/auth/skkey.go: which keys a
-- running daemon accepts.
use ocu_mcp_gateway.Base.{
  ℕ, ◌≡◌, refl, sym, ap, ◌∙◌, true, List, [], ◌∷◌, ◌++◌, some, Str, arith, ok, map, eq_of_ok,
  Result-cases, inl, inr, Any,
}
use ocu_mcp_gateway.Auth.{StaticKeySet, KeyRecord, Caller, caller_of, authenticate}
use ocu_mcp_gateway.Auth.Resolve.{Last, authenticate_iff}
use ocu_mcp_gateway.Boot.{
  Sequencer, Loaded, Call, load_call, refresh_call, key_set, live_key_set, new_sequencer, load,
  refresh, step, after,
}
use ocu_mcp_gateway.Boot.Readiness.{LastGood, served_iff, ready_of_load, IsLoad}
use ocu_mcp_gateway.Config.KeySet
use ocu_mcp_gateway.Config.KeySet.Homogeneity.{IsLoaded, load-IsLoaded}
use ocu_mcp_gateway.Daemon.Stages.{serve-Stages}
use ocu_mcp_gateway.Daemon.{
  Host, Daemon, load_boot_set, loader_of, of_loader, sequenced, serve, run_refresh_loop,
}
use ocu_mcp_gateway.Options.{Options}

-- The calls of the sequencer: the load of the boot, then the refreshes of the ticks, the last first.
abbrev pub history : StaticKeySet → List Loaded → List Call
history keys ticks = map refresh_call ticks ++ load_call (ok (some keys)) ∷ []

loop_after :
    (keys : StaticKeySet) (ticks : List Loaded)
    → run_refresh_loop ticks (after (load_call (ok (some keys)) ∷ [])) ≡ after (history keys ticks)
unfolding run_refresh_loop after step
loop_after keys [] = refl
loop_after keys (l ∷ ls) = ap (λ s. (refresh l s).0) (loop_after keys ls)

loads_last : (keys : StaticKeySet) (ticks : List Loaded) → Any IsLoad (history keys ticks)
unfolding IsLoad
loads_last keys [] = inl tt
loads_last keys (l ∷ ls) = inr (loads_last keys ls)

served_of_live :
    (s : Sequencer) (ks : StaticKeySet)
    → s.ready ≡ true
    → live_key_set s ≡ some ks
    → key_set s ≡ ok ks
unfolding key_set
served_of_live s ks r e = ground (arith, r, e)

sequencer_booted :
    (h : Host) (o : Options) (s : Sequencer)
    → load_boot_set h o ≡ ok s
    → (keys : StaticKeySet) × IsLoaded h.source (loader_of o) keys
      × (after (load_call (ok (some keys)) ∷ []) ≡ s)
unfolding load_boot_set load after step
sequencer_booted h o s e = elim (Result-cases (KeySet.load h.source (loader_of o))) [
  | inl (keys, loaded) ↦ (
    keys,
    load-IsLoaded h.source (loader_of o) keys loaded,
    eq_of_ok refl (ap (λ r. sequenced (load (of_loader r) new_sequencer)) (sym loaded) ∙ e),
  )
  | inr (bad, failed) ↦ absurd (ground (arith, failed))
]

daemon_booted :
    (h : Host) (o : Options) (d : Daemon)
    → serve h o ≡ ok d
    → (keys : StaticKeySet) × IsLoaded h.source (loader_of o) keys
      × (after (load_call (ok (some keys)) ∷ []) ≡ d.sequencer)
daemon_booted h o d e = sequencer_booted h o d.sequencer (serve-Stages h o d e).booted

-- Where the daemon came to a bound listener and its refresh loop had any ticks since, with whatever
-- the loader returned to each: a bearer that is authenticated as `c` at an instant is vouched for by a
-- record of the newest key set that the loader gave, to the boot or to a tick, and `c` is the caller
-- of the last such record.
pub accepted_live :
    (h : Host) (o : Options) (d : Daemon) (ticks : List Loaded) (sha256 : Str → Str) (now : ℕ)
    (bearer : Str) (c : Caller)
    → serve h o ≡ ok d
    → authenticate sha256 (live_key_set (run_refresh_loop ticks d.sequencer)) now bearer ≡ ok c
    → (keys : StaticKeySet) × IsLoaded h.source (loader_of o) keys
      × ((ks : StaticKeySet) × LastGood (history keys ticks) ks
          × ((r : KeyRecord) × Last sha256 ks.deployment now bearer ks.records r
              × (caller_of r ≡ c)))
accepted_live h o d ticks sha256 now bearer c e a =
    let (keys, from, same) = daemon_booted h o d e in
    let live = run_refresh_loop ticks d.sequencer in
    let run : live ≡ after (history keys ticks) =
      ap (run_refresh_loop ticks) (sym same) ∙ loop_after keys ticks in
    let (ks, held, (r, last, caller)) =
      (authenticate_iff sha256 (live_key_set live) now bearer c).0 a in
    let ready = ready_of_load (history keys ticks) (loads_last keys ticks) in
    let served =
      served_of_live (after (history keys ticks)) ks ready (ap live_key_set (sym run) ∙ held) in
    (keys, from, (ks, (served_iff (history keys ticks) ks).0 served, (r, last, caller)))
