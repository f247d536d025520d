-- ===== src/Forward/Calls/Order.antt =====
-- internal/forward/http.go, Forward: the calls to Control that any forward makes.
use ocu_mcp_gateway.Base.{
  ◌≡◌, ◌≢◌, inl, inr, refl, sym, subst, List, [], ◌∷◌, Option, none, some, Result, ok, err, Str,
  codes, str_eq, str_eq_iff, is_empty, arith, Bool-cases, Option-cases, Result-cases,
}
use ocu_mcp_gateway.Forward.Session.{build_create_request, session_hint_for, validate}
use ocu_mcp_gateway.Forward.Calls.{
  World, ControlForwarder, SessionRequest, Call, status, create_call, exec_call, second_hop,
  post_json, forward, status_replied, status_decoded, exec_replied, exec_decoded, projected,
  Failure, create_replied, presented, SessionReply,
}
use ocu_mcp_gateway.Forward.Results.{ExecResponse, CallToolResult, project_call_tool_result}

module _ (w : World) (f : ControlForwarder) (req : SessionRequest) where
  abbrev pub hint : Str
  hint = session_hint_for req.principal req.session_hint

  abbrev pub first : Call
  first = create_call w (build_create_request f.provisioning hint)

  -- The calls of a forward: none, the create call, or it and one that addresses the same session.
  pub data Legal : List Call → Type 0 where
    silent : Legal []
    created : Legal (first ∷ [])
    scoped : req.tool_call.name ≡ codes "resolve_scope" → Legal (first ∷ status hint ∷ [])
    executed :
        req.tool_call.argv ≢ []
        → req.tool_call.name ≢ codes "resolve_scope"
        → Legal (first ∷ exec_call w f hint req.tool_call ∷ [])

  status_decoded-calls :
      (made : List Call) (key : Str) (o : Option SessionReply)
      → (status_decoded w made key o).0 ≡ made
  status_decoded-calls made key none = refl
  status_decoded-calls made key (some r) = refl

  status_replied-calls :
      (made : List Call) (key : Str) (o : Result Failure Str)
      → (status_replied w made key o).0 ≡ made
  status_replied-calls made key (err e) = refl
  status_replied-calls made key (ok body) = status_decoded-calls made key (w.session_reply body)

  projected-calls :
      (made : List Call) (key : Str) (o : Option CallToolResult) → (projected w made key o).0 ≡ made
  projected-calls made key none = refl
  projected-calls made key (some r) = refl

  exec_decoded-calls :
      (made : List Call) (key : Str) (argv : List Str) (o : Option ExecResponse)
      → (exec_decoded w made key argv o).0 ≡ made
  exec_decoded-calls made key argv none = refl
  exec_decoded-calls made key argv (some r) =
      projected-calls made key (project_call_tool_result w.decode w.decimal r argv)

  exec_replied-calls :
      (made : List Call) (key : Str) (argv : List Str) (o : Result Failure Str)
      → (exec_replied w made key argv o).0 ≡ made
  exec_replied-calls made key argv (err e) = refl
  exec_replied-calls made key argv (ok body) = exec_decoded-calls made key argv (w.exec_reply body)

  second_hop-IsLegal : (key : Str) → Legal (second_hop w f hint req.tool_call (first ∷ []) key).0
  unfolding second_hop
  second_hop-IsLegal key = elim (Bool-cases (str_eq req.tool_call.name (codes "resolve_scope"))) [
    | inl is_scope ↦ rw (is_scope) (
        subst Legal
          (sym (
            status_replied-calls (first ∷ status hint ∷ []) key
              (post_json w (first ∷ []) (status hint))))
          (scoped ((str_eq_iff req.tool_call.name (codes "resolve_scope")).0 is_scope)))
    | inr other ↦ elim (Bool-cases (is_empty req.tool_call.argv)) [
      | inl bare ↦ rw (other, bare) created
      | inr full ↦
          rw (other, full)
            (subst Legal
              (sym (
                exec_replied-calls (first ∷ exec_call w f hint req.tool_call ∷ []) key
                  req.tool_call.argv (post_json w (first ∷ []) (exec_call w f hint req.tool_call))))
              (executed (λ e. absurd (ground (arith, e, full)))
                (λ e. absurd (
                  ground
                    (arith, str_eq_iff req.tool_call.name (codes "resolve_scope"), e, other)))))
    ]
  ]

  create_replied-IsLegal :
      (o : Result Failure Str) → Legal (create_replied w f hint req.tool_call (first ∷ []) o).0
  create_replied-IsLegal (err e) = created
  create_replied-IsLegal (ok body) = elim (Option-cases (w.session_reply body)) [
    | inl bad ↦ rw (bad) created
    | inr (reply, read) ↦ rw (read) (second_hop-IsLegal reply.key)
  ]

  presented-IsLegal : (o : Option Str) → Legal (presented w f req o).0
  presented-IsLegal none = silent
  presented-IsLegal (some token) =
      elim (Result-cases (validate (build_create_request f.provisioning hint))) [
        | inl (u, fine) ↦ rw (fine) (create_replied-IsLegal (post_json w [] first))
        | inr (e, bad) ↦ rw (bad) silent
      ]

  -- A forward makes no call of Control, or the create call, or that and one more: the status call for
  -- `resolve_scope`, the exec call otherwise, if there is an argv. The create call depends on the
  -- deployment, the caller and the hint only, and the other addresses the same session hint.
  pub forward-IsLegal : Legal (forward w f req).0
  unfolding forward
  forward-IsLegal = elim (Bool-cases (is_empty f.endpoint)) [
    | inl none_given ↦ rw (none_given) silent
    | inr given ↦ elim (Bool-cases f.has_tls) [
      | inl secure ↦ simp (given, secure) (presented-IsLegal w.token)
      | inr plain ↦ simp (given, plain) silent
    ]
  ]
