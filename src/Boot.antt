-- ===== src/Boot.antt =====
-- internal/boot/boot.go: the sequencer that loads the key set before the listener binds. The
-- loader is a parameter: what each call of it returns is the argument of `load` and `refresh`. The
-- key set behind the interface is the static one, the only implementation.
pub mod Readiness
mod Tests
use ocu_mcp_gateway.Base.{Bool, true, false, List, [], ◌∷◌, Option, none, some, Result, ok, err}
use ocu_mcp_gateway.Auth.{StaticKeySet}

-- The pointer to the stored key set, and the ready flag.
pub record Sequencer : Type 0 where
  pub keys : Option StaticKeySet
  pub ready : Bool

-- ErrNotReady, and the two errors of a failed refresh.
pub data Error : Type 0 where
  not_ready refresh_failed refresh_nil : Error

-- What the loader returns: an error, or a key set that may be nil.
abbrev pub Loaded : Type 0
Loaded = Result (Unit {0}) (Option StaticKeySet)

abbrev pub new_sequencer : Sequencer
new_sequencer = record { keys = none; ready = false }

unfoldable pub load : Loaded → Sequencer → Sequencer × Result Error (Unit {0})
load (err e) s = (s, err not_ready)
load (ok none) s = (s, err not_ready)
load (ok (some ks)) s = (record { keys = some ks; ready = true }, ok tt)

abbrev pub reload : Loaded → Sequencer → Sequencer × Result Error (Unit {0})
reload (err e) s = (s, err refresh_failed)
reload (ok none) s = (s, err refresh_nil)
reload (ok (some ks)) s = (record { keys = some ks; ready = s.ready }, ok tt)

abbrev pub refresh_at : Bool → Loaded → Sequencer → Sequencer × Result Error (Unit {0})
refresh_at true l s = reload l s
refresh_at false l s = (s, err not_ready)

unfoldable pub refresh : Loaded → Sequencer → Sequencer × Result Error (Unit {0})
refresh l s = refresh_at s.ready l s

abbrev pub live_key_set : Sequencer → Option StaticKeySet
live_key_set s = s.keys

abbrev pub stored : Option StaticKeySet → Result Error StaticKeySet
stored none = err not_ready
stored (some ks) = ok ks

abbrev pub stored_at : Bool → Option StaticKeySet → Result Error StaticKeySet
stored_at true keys = stored keys
stored_at false keys = err not_ready

unfoldable pub key_set : Sequencer → Result Error StaticKeySet
key_set s = stored_at s.ready s.keys

-- A call of Load or of Refresh, with what the loader returns to it.
pub data Call : Type 0 where
  load_call : Loaded → Call
  refresh_call : Loaded → Call

unfoldable pub step : Call → Sequencer → Sequencer
unfolding load refresh
step (load_call l) s = (load l s).0
step (refresh_call l) s = (refresh l s).0

-- The calls of a list, the last made first in it.
unfoldable pub after : List Call → Sequencer
unfolding step
after [] = new_sequencer
after (c ∷ cs) = step c (after cs)
