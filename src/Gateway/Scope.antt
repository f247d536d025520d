-- ===== src/Gateway/Scope.antt =====
-- The readers, the policy and the handler together: what the policy says of the arguments that are
-- forwarded.
use ocu_mcp_gateway.Base.{◌≡◌, sym, ap, ◌∙◌, List, Str, ok, eq_of_ok, Any}
use ocu_mcp_gateway.Authz.Policy.Permits.{Permits, RootedRule, decide_iff}
use ocu_mcp_gateway.Boot.{Loaded}
use ocu_mcp_gateway.Forward.Calls.{SessionRequest}
use ocu_mcp_gateway.Ingress.Exchange.{Request, forwarded, read_bounded}
use ocu_mcp_gateway.Ingress.Readers.{tool_name_from, tool_arguments_from, tool_call_from}
use ocu_mcp_gateway.Ingress.Readers.Agreement.{IsSingle, argument_values, tool_call-agrees}
use ocu_mcp_gateway.Daemon.{Host, Daemon, serve}
use ocu_mcp_gateway.Options.{Options}
use ocu_mcp_gateway.Gateway.{Moment, respond, env_of}
use ocu_mcp_gateway.Gateway.Identity.{Accountable, forwarded-IsAccountable}

-- Where the daemon came to a bound listener, after any ticks of its refresh loop, for a request whose
-- body has one `params` and one `arguments` in it, and where the rule of the loaded policy for the
-- call has absolute prefixes only: a session request that is forwarded is permitted to its principal
-- with the very arguments that are forwarded, so that their `path`, where the rule has prefixes, lies
-- under one of them.
pub forwarded-Permits :
    (h : Host) (o : Options) (d : Daemon) (ticks : List Loaded) (m : Moment) (r : Request)
    (q : SessionRequest) (raw a : Str)
    → serve h o ≡ ok d
    → read_bounded m.sent ≡ ok raw
    → IsSingle m.rest.decoder raw a
    → RootedRule d.policy q.principal.key_id q.tool_call.name
    → Any (λ e. e ≡ forwarded q) (respond h d ticks m r)
    → Permits d.policy q.principal.key_id q.tool_call.name
        (argument_values m.rest.decoder q.tool_call.arguments)
unfolding env_of tool_call_from
forwarded-Permits h o d ticks m r q raw a up read single rooted f =
    let x : Accountable h o d ticks m r q = forwarded-IsAccountable h o d ticks m r q up f in
    let body : x.raw ≡ raw = eq_of_ok x.sent read in
    let (named, whole, values) = tool_call-agrees m.rest.decoder m.rest.scripts raw a single in
    let key : x.key.key_id ≡ q.principal.key_id = ap (λ c. c.key_id) (sym x.principal) in
    let name : tool_name_from m.rest.decoder x.raw ≡ q.tool_call.name =
      ap (λ y. y.tool_call.name) (sym x.made) in
    let arguments : q.tool_call.arguments ≡ a =
      ap (λ y. y.tool_call.arguments) x.made
      ∙ ap (λ y. (tool_call_from m.rest.decoder m.rest.scripts y).arguments) body
      ∙ whole in
    let given : tool_arguments_from m.rest.decoder x.raw
        ≡ argument_values m.rest.decoder q.tool_call.arguments =
      ap (tool_arguments_from m.rest.decoder) body
      ∙ values
      ∙ ap (argument_values m.rest.decoder) (sym arguments) in
    (decide_iff d.policy q.principal.key_id q.tool_call.name
        (argument_values m.rest.decoder q.tool_call.arguments) rooted).0
      (rw (← key, ← name, ← given) x.granted)
