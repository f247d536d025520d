-- ===== src/Gateway/Confinement.antt =====
-- The flag of confined key ids, the policy, the handler and the forwarder together: what a confined
-- key can have Control do.
mod Tests
use ocu_mcp_gateway.Base.{
  ◌≡◌, ◌≢◌, refl, sym, ap, ◌∙◌, subst, Bool, true, false, not, List, [], ◌∷◌, Option, none, some,
  Str, Result, ok, err, bind_ok, refuse_if, eq_of_ok, Any, any, lookup,
}
use ocu_mcp_gateway.Authz.Load
use ocu_mcp_gateway.Authz.Policy.{Policy, decide}
use ocu_mcp_gateway.Boot.{Loaded}
use ocu_mcp_gateway.Forward.Calls.{
  World, ControlForwarder, SessionRequest, Call, create, status, exec, destroy, forward,
}
use ocu_mcp_gateway.Forward.Calls.Order.{Legal, silent, created, scoped, executed, forward-IsLegal}
use ocu_mcp_gateway.Ingress.Exchange.{Effect, Request, forwarded}
use ocu_mcp_gateway.Ingress.Readers.{tool_name_from, tool_arguments_from, tool_call_from}
use ocu_mcp_gateway.Ingress.ResolveOnly.{
  resolve_scope_tool_name, resolve_only_profile_name, is_restricted, new_resolve_only_policy,
  compile_resolve_only,
}
use ocu_mcp_gateway.Ingress.ResolveOnly.Confinement.{restricted_confined}
use ocu_mcp_gateway.Daemon.Stages.{serve-Stages}
use ocu_mcp_gateway.Daemon.{
  Host, Daemon, check_options, load_boot_set, build_forwarder, policy_text, policy_of, load_policy,
  advertised_tool_names, open_sink, serve, no_validator, not_ready, not_bound,
}
use ocu_mcp_gateway.Options.{Options}
use ocu_mcp_gateway.Gateway.{Moment, respond, env_of}
use ocu_mcp_gateway.Gateway.Identity.{Accountable, forwarded-IsAccountable}

abbrev pub is_exec : Call → Bool
is_exec (exec body) = true
is_exec _ = false

legal_confined :
    (w : World) (f : ControlForwarder) (q : SessionRequest) (calls : List Call)
    → q.tool_call.name ≡ resolve_scope_tool_name
    → Legal w f q calls
    → any is_exec calls ≡ false
legal_confined w f q _ name silent = refl
legal_confined w f q _ name created = refl
legal_confined w f q _ name (scoped same) = refl
legal_confined w f q _ name (executed argv other) = absurd (other name)

compiled_policy :
    (h : Host) (o : Options) (text : Str) (p q : Policy)
    → policy_text h o ≡ ok text
    → Load.load h.authz text (advertised_tool_names h) ≡ ok p
    → load_policy h o ≡ ok q
    → q ≡ compile_resolve_only p (new_resolve_only_policy o.resolve_only_key_ids)
unfolding load_policy
compiled_policy h o text p q read parsed e = eq_of_ok e (rw (read, parsed) refl)

-- Where the daemon came to a bound listener, after any ticks of its refresh loop: if the flag names
-- the key id of a forwarded request's principal, and the policy document neither binds that key id
-- nor has a profile of the name of the confinement, then the request is for resolve_scope, and no
-- call that its forward makes of Control is an exec.
pub confined-never_exec :
    (h : Host) (o : Options) (d : Daemon) (ticks : List Loaded) (m : Moment) (r : Request)
    (q : SessionRequest) (text : Str) (p : Policy)
    → serve h o ≡ ok d
    → policy_text h o ≡ ok text
    → Load.load h.authz text (advertised_tool_names h) ≡ ok p
    → is_restricted (new_resolve_only_policy o.resolve_only_key_ids) q.principal.key_id ≡ true
    → lookup q.principal.key_id p.callers ≡ none
    → lookup resolve_only_profile_name p.profiles ≡ none
    → Any (λ e. e ≡ forwarded q) (respond h d ticks m r)
    → (q.tool_call.name ≡ resolve_scope_tool_name)
      × (any is_exec (forward m.world d.forwarder.forwarder q).0 ≡ false)
unfolding env_of tool_call_from
confined-never_exec h o d ticks m r q text p up read parsed named unbound undeclared f =
    let a : Accountable h o d ticks m r q = forwarded-IsAccountable h o d ticks m r q up f in
    let same : d.policy ≡ compile_resolve_only p (new_resolve_only_policy o.resolve_only_key_ids) =
      compiled_policy h o text p d.policy read parsed (serve-Stages h o d up).policy in
    let key : a.key.key_id ≡ q.principal.key_id = ap (λ c. c.key_id) (sym a.principal) in
    let args = tool_arguments_from m.rest.decoder a.raw in
    let tool = tool_name_from m.rest.decoder a.raw in
    let granted : decide (compile_resolve_only p (new_resolve_only_policy o.resolve_only_key_ids))
          q.principal.key_id tool args
        ≡ ok tt =
      ap (λ x. decide x q.principal.key_id tool args) (sym same)
      ∙ ap (λ k. decide d.policy k tool args) (sym key)
      ∙ a.granted in
    let confined : tool ≡ resolve_scope_tool_name =
      (restricted_confined p (new_resolve_only_policy o.resolve_only_key_ids) q.principal.key_id
          tool args named unbound undeclared).0
        granted in
    let name : q.tool_call.name ≡ resolve_scope_tool_name =
      ap (λ x. x.tool_call.name) a.made ∙ confined in
    (
      name,
      legal_confined m.world d.forwarder.forwarder q _ name
          (forward-IsLegal m.world d.forwarder.forwarder q),
    )
