-- ===== src/Gateway.antt =====
-- cmd/ocu-mcp-gatewayd/main.go and internal/ingress/handler.go: the handler of a running daemon. What
-- authenticates, authorizes and forwards is the daemon's; a request finds the key set that the
-- refresh loop has left.
pub mod Identity
pub mod Confinement
pub mod Scope
pub mod Trail
pub mod Fixtures
mod Tests
use ocu_mcp_gateway.Base.{
  Bool, Json, ℕ, List, ◌∷◌, Option, none, some, Str, is_some, Result, ok, err,
}
use ocu_mcp_gateway.Auth.{Caller, authenticate}
use ocu_mcp_gateway.Boot.{Loaded, Sequencer, live_key_set}
use ocu_mcp_gateway.Forward.Calls.{World, SessionRequest, SessionResponse, Outcome, forward}
use ocu_mcp_gateway.Ingress.Exchange.{read_bounded, Env, Request, Effect}
use ocu_mcp_gateway.Ingress.Body
use ocu_mcp_gateway.Ingress.Handler.{serve_http}
use ocu_mcp_gateway.Profile.{
  Decoding, default_limits, call_tool_result, validate, validate_single_message_envelope,
}
use ocu_mcp_gateway.Quota.{Ceiling, acquire}
use ocu_mcp_gateway.Daemon.{Daemon, Host, run_refresh_loop}

abbrev pub to_option {ℓ κ} : {E : Type ℓ} {A : Type κ} → Result E A → Option A
to_option (ok a) = some a
to_option (err e) = none

-- What a request finds: its body, the instant, the digest, the reading and printing of JSON, the
-- world of the forwarder, the ceiling as other requests have left it, and the rest of an `Env`.
pub record Moment : Type 1 where
  pub sent : Option (Str × Bool)
  pub profile : Decoding
  pub marshal : Json → Str
  pub now : ℕ
  pub sha256 : Str → Str
  pub world : World
  pub ceiling : Ceiling
  pub rest : Env

unfoldable pub env_of : Host → Daemon → List Loaded → Moment → Env
unfolding authenticate forward acquire read_bounded validate_single_message_envelope validate
    Body.call_tool_result
env_of h d ticks m = record m.rest {
  allowed_origins = d.origins;
  authenticate = λ bearer.
      to_option
        (authenticate m.sha256 (live_key_set (run_refresh_loop ticks d.sequencer)) m.now bearer);
  read = read_bounded m.sent;
  envelope = validate_single_message_envelope m.profile;
  validate = validate m.profile default_limits;
  validate_result =
      λ x. validate m.profile default_limits call_tool_result (m.marshal (Body.call_tool_result x));
  ceiling = λ key. is_some (to_option (acquire m.ceiling key));
  advertised = h.tool_names;
  policy = d.policy;
  forward = λ q. to_option (forward m.world d.forwarder.forwarder q).1;
}

-- What a running daemon does with a request.
unfoldable pub respond : Host → Daemon → List Loaded → Moment → Request → List Effect
unfolding env_of serve_http
respond h d ticks m r = serve_http (env_of h d ticks m) r
