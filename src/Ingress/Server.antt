-- ===== src/Ingress/Server.antt =====
-- internal/ingress/server.go, internal/ingress/readiness.go and
-- cmd/ocu-mcp-gatewayd/healthcheck.go: the server around the handler. What net/http returns from
-- its loop, and the status that a GET of the probe gets, are arguments.
mod Tests
pub mod Health
use ocu_mcp_gateway.Base.{
  ℕ, Bool, true, false, not, ◌==◌, List, [], ◌++◌, Option, none, some, if◌then◌else◌, Str, codes,
  str_eq, is_empty, Result, ok, err,
}
use ocu_mcp_gateway.Boot.{Sequencer}
use ocu_mcp_gateway.Ingress.Exchange.{Env, Request, Effect}

abbrev pub healthz_path : Str
healthz_path = codes "/healthz"

abbrev pub health_path : Str
health_path = codes "/health"

-- The two handlers that the mux is made of.
pub record ReadinessMux : Type 0 where
  pub mcp : Env → Request → List Effect
  pub ready : Sequencer → Bool

abbrev pub mux_of :
    Option (Env → Request → List Effect) → Option (Sequencer → Bool) → Option ReadinessMux
mux_of none ready = none
mux_of (some mcp) none = none
mux_of (some mcp) (some ready) = some (record { mcp = mcp; ready = ready })

unfoldable pub new_readiness_mux :
    Option (Env → Request → List Effect) → Option (Sequencer → Bool) → Option ReadinessMux
new_readiness_mux mcp ready = mux_of mcp ready

-- A status with a body, or what the MCP handler does.
pub data Answer : Type 0 where
  plain : ℕ → Str → Answer
  served : List Effect → Answer

unfoldable pub serve_mux : ReadinessMux → Sequencer → Str → Env → Request → Answer
serve_mux m s path env r =
    if str_eq path health_path
    then plain 200 (codes "{\"status\":\"healthy\"}\n")
    else if str_eq path healthz_path
    then (if m.ready s then plain 200 (codes "ready\n") else plain 503 (codes "not ready\n"))
    else served (m.mcp env r)

pub record Server : Type 0 where
  pub handler : Option ReadinessMux
  pub ln : Option Str

abbrev pub new_server : Option Str → Option ReadinessMux → Server
new_server ln handler = record { handler = handler; ln = ln }

-- The bounds of the http.Server, in seconds.
pub record Posture : Type 0 where
  pub read_header_timeout : ℕ
  pub read_timeout : ℕ
  pub idle_timeout : ℕ
  -- The latch that each connection starts with.
  pub conn_latch : Option Bool

abbrev pub http_server : Posture
http_server = record {
  read_header_timeout = 10;
  read_timeout = 30;
  idle_timeout = 120;
  conn_latch = some false;
}

pub data ServeError : Type 0 where
  no_listener no_handler serve_failed : ServeError

-- How the loop of net/http ends.
pub data Ended : Type 0 where
  server_closed listener_closed failed : Ended

abbrev pub ended : Ended → Result ServeError (Unit {0})
ended server_closed = ok tt
ended listener_closed = ok tt
ended failed = err serve_failed

abbrev pub serve_handler : Option ReadinessMux → Ended → Result ServeError (Unit {0})
serve_handler none e = err no_handler
serve_handler (some m) e = ended e

abbrev pub serve_on : Option Str → Option ReadinessMux → Ended → Result ServeError (Unit {0})
serve_on none handler e = err no_listener
serve_on (some ln) handler e = serve_handler handler e

unfoldable pub serve : Server → Ended → Result ServeError (Unit {0})
serve s e = serve_on s.ln s.handler e

pub data ProbeError : Type 0 where
  no_listen dial_failed : ProbeError
  bad_status : ℕ → ProbeError

abbrev pub probe_url : Str → Str
probe_url addr = codes "http://" ++ addr ++ healthz_path

abbrev pub probed : Option ℕ → Result ProbeError (Unit {0})
probed none = err dial_failed
probed (some status) = if status == 200 then ok tt else err (bad_status status)

-- `get` is the status that a GET of a URL comes back with, if it does.
unfoldable pub health_check_probe : (Str → Option ℕ) → Str → Result ProbeError (Unit {0})
health_check_probe get addr = if is_empty addr then err no_listen else probed (get (probe_url addr))
