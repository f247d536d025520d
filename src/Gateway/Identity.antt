-- ===== src/Gateway/Identity.antt =====
-- The daemon, the key set, the policy and the handler together: whom a session request that reaches
-- Control comes from.
use ocu_mcp_gateway.Base.{
  ◌≡◌, ◌≤◌, length, arith, sym, ap, ◌∙◌, subst, List, some, Str, Result, ok, err, Any, eq_of_some,
}
use ocu_mcp_gateway.Auth.{KeyRecord, StaticKeySet, caller_of, authenticate}
use ocu_mcp_gateway.Auth.Resolve.{Last}
use ocu_mcp_gateway.Authz.Load.Checks.{IsSound}
use ocu_mcp_gateway.Authz.Policy.{decide}
use ocu_mcp_gateway.Boot.{Loaded, live_key_set}
use ocu_mcp_gateway.Boot.Readiness.{LastGood}
use ocu_mcp_gateway.Config.KeySet.Homogeneity.{IsLoaded}
use ocu_mcp_gateway.Forward.Calls.{SessionRequest}
use ocu_mcp_gateway.Ingress.Exchange.{read_bounded, Request, forwarded, bearer_from_header}
use ocu_mcp_gateway.Ingress.Handler.{session_request}
use ocu_mcp_gateway.Ingress.Handler.Guards.{forwarded-IsPermitted}
use ocu_mcp_gateway.Ingress.Readers.{tool_name_from, tool_arguments_from}
use ocu_mcp_gateway.Profile.{default_limits}
use ocu_mcp_gateway.Profile.Requests.{IsToolCall, validate_request_iff}
use ocu_mcp_gateway.Daemon.{Host, Daemon, serve, loader_of, run_refresh_loop, advertised_tool_names}
use ocu_mcp_gateway.Options.{Options}
use ocu_mcp_gateway.Daemon.Serving.{serve-IsServing}
use ocu_mcp_gateway.Daemon.Refresh.{history, accepted_live}
use ocu_mcp_gateway.Gateway.{Moment, to_option, env_of, respond}

to_option-ok {ℓ κ} :
    {E : Type ℓ} {A : Type κ} (r : Result E A) {a : A} → to_option r ≡ some a → r ≡ ok a
to_option-ok (ok a) h = ap ok (eq_of_some h)
to_option-ok (err e) h = absurd (cc)

-- The principal of `q` is the caller of the last record that vouches for the bearer of the request, in
-- the newest key set that the loader gave to the boot or to a tick; and the policy that the daemon
-- loaded, which names only advertised tools, grants the call that `q` was made of, which is a valid
-- tools/call of at most 256 KiB.
pub record Accountable (h : Host) (o : Options) (d : Daemon) (ticks : List Loaded) (m : Moment)
    (r : Request) (q : SessionRequest) : Type 0 where
  pub first : StaticKeySet
  pub booted : IsLoaded h.source (loader_of o) first
  pub keys : StaticKeySet
  pub newest : LastGood (history first ticks) keys
  pub key : KeyRecord
  pub vouches :
      Last m.sha256 keys.deployment m.now (bearer_from_header r.authorization) keys.records key
  pub principal : q.principal ≡ caller_of key
  pub sound : IsSound d.policy (advertised_tool_names h)
  pub raw : Str
  pub sent : read_bounded m.sent ≡ ok raw
  pub bounded : length raw ≤ 262144
  pub call : IsToolCall m.profile raw
  pub granted :
      decide d.policy key.key_id
        (tool_name_from m.rest.decoder raw)
        (tool_arguments_from m.rest.decoder raw)
      ≡ ok tt
  pub made : q ≡ session_request (env_of h d ticks m) r (caller_of key) raw

-- Where the daemon came to a bound listener, after any ticks of its refresh loop: a session request
-- that it forwards for a request has as its principal the caller of the last record that vouches
-- for the request's bearer, in the newest key set that the loader gave; it is made of a body of
-- at most 256 KiB that is a call of `tools/call`; and the policy that the daemon loaded, which names
-- only advertised tools, grants that caller that call.
pub forwarded-IsAccountable :
    (h : Host) (o : Options) (d : Daemon) (ticks : List Loaded) (m : Moment) (r : Request)
    (q : SessionRequest)
    → serve h o ≡ ok d
    → Any (λ e. e ≡ forwarded q) (respond h d ticks m r)
    → Accountable h o d ticks m r q
unfolding respond env_of
forwarded-IsAccountable h o d ticks m r q up f =
    let p = forwarded-IsPermitted (env_of h d ticks m) r q f in
    let known =
      to_option-ok
        (authenticate m.sha256 (live_key_set (run_refresh_loop ticks d.sequencer)) m.now
          (bearer_from_header r.authorization))
        p.known in
    let valid = (validate_request_iff m.profile default_limits p.raw).0 p.valid in
    let (first, booted, (keys, newest, (key, vouches, same))) =
      accepted_live h o d ticks m.sha256 m.now (bearer_from_header r.authorization) p.caller up
        known in
    record {
      first = first;
      booted = booted;
      keys = keys;
      newest = newest;
      key = key;
      vouches = vouches;
      principal = ap (λ x. x.principal) p.request ∙ sym same;
      sound = (serve-IsServing h o d up).policy;
      raw = p.raw;
      sent = p.body_read;
      bounded = ground (arith, valid.0);
      call = valid.1;
      granted =
          subst
            (λ c.
              decide d.policy c.key_id (tool_name_from m.rest.decoder p.raw)
                (tool_arguments_from m.rest.decoder p.raw)
              ≡ ok tt)
            (sym same) p.granted;
      made = subst (λ c. q ≡ session_request (env_of h d ticks m) r c p.raw) (sym same) p.request;
    }
