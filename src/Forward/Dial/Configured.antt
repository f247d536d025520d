-- ===== src/Forward/Dial/Configured.antt =====
-- internal/forward: what a forward of a forwarder that was built does not fail with.
use ocu_mcp_gateway.Base.{
  if_both, ℕ, ◌≡◌, refl, sym, ap, ◌≢◌, subst, Bool, true, false, ◌||◌, ltb, leb, List, [], ◌∷◌,
  Option, none, some, if◌then◌else◌, Str, codes, str_eq, take, is_empty, Bool-cases, Result, ok,
  err, inl, inr, ◌⊎◌,
}
use ocu_mcp_gateway.Forward.Session.{
  ProvisioningPolicy, Inadmissible, build_create_request, session_hint_for, validate,
}
use ocu_mcp_gateway.Forward.Results.{project_call_tool_result, ExecResponse, CallToolResult}
use ocu_mcp_gateway.Forward.Calls.{
  World, ControlForwarder, SessionRequest, SessionReply, SessionResponse, ToolCall, Call, status,
  Failure, Outcome, round_trip_failed, bad_status, no_endpoint, no_transport, inadmissible, forward,
  presented, admitted, create_replied, create_decoded, create_call, second_hop, post_json, accepted,
  max_reply_bytes, exec_call, status_replied, status_decoded, exec_replied, exec_decoded, projected,
}
use ocu_mcp_gateway.Forward.Dial.{
  DialConfig, FileServiceCredential, Built, new_control_forwarder_with_dial,
}
use ocu_mcp_gateway.Forward.Dial.Construction.{IsBuilt, construction-IsBuilt}

-- A failure that the configuration is to blame for, a missing endpoint apart.
abbrev pub is_misconfigured : Result Failure SessionResponse → Bool
is_misconfigured (err no_transport) = true
is_misconfigured (err (inadmissible e)) = true
is_misconfigured _ = false

abbrev IsClean : Outcome → Type 0
IsClean o = is_misconfigured o.1 ≡ false

-- What a round trip fails with.
accepted-cases :
    (r : Option (ℕ × Str))
    → ((body : Str) × (accepted r ≡ ok body))
      ⊎ (accepted r ≡ err round_trip_failed)
      ⊎ (accepted r ≡ err bad_status)
accepted-cases none = inr (inl refl)
accepted-cases (some (code, body)) = elim (Bool-cases (ltb code 200 || leb 300 code)) [
  | inl bad ↦ inr (inr (rw bad))
  | inr good ↦ inl (take max_reply_bytes body, rw good)
]

-- A continuation that is clean on every body and on these two errors is clean after a reply.
reply-IsClean :
    (k : Result Failure Str → Outcome) (r : Option (ℕ × Str))
    → ((body : Str) → IsClean (k (ok body)))
    → IsClean (k (err round_trip_failed))
    → IsClean (k (err bad_status))
    → IsClean (k (accepted r))
reply-IsClean k r answered failed refused = elim (accepted-cases r) [
  | inl (body, e) ↦ subst (λ x. IsClean (k x)) (sym e) (answered body)
  | inr (inl e) ↦ subst (λ x. IsClean (k x)) (sym e) failed
  | inr (inr e) ↦ subst (λ x. IsClean (k x)) (sym e) refused
]

module _ (w : World) (f : ControlForwarder) where
  status_decoded-IsClean :
      (made : List Call) (key : Str) (o : Option SessionReply)
      → IsClean (status_decoded w made key o)
  status_decoded-IsClean made key none = refl
  status_decoded-IsClean made key (some x) = refl

  projected-IsClean :
      (made : List Call) (key : Str) (o : Option CallToolResult) → IsClean (projected w made key o)
  projected-IsClean made key none = refl
  projected-IsClean made key (some x) = refl

  exec_decoded-IsClean :
      (made : List Call) (key : Str) (argv : List Str) (o : Option ExecResponse)
      → IsClean (exec_decoded w made key argv o)
  exec_decoded-IsClean made key argv none = refl
  exec_decoded-IsClean made key argv (some x) =
      projected-IsClean made key (project_call_tool_result w.decode w.decimal x argv)

  second_hop-IsClean :
      (hint : Str) (t : ToolCall) (made : List Call) (key : Str)
      → IsClean (second_hop w f hint t made key)
  unfolding second_hop post_json
  second_hop-IsClean hint t made key =
      if_both IsClean (str_eq t.name (codes "resolve_scope")) _ _
        (reply-IsClean (status_replied w _ key) (w.round_trip made (status hint))
          (λ body. status_decoded-IsClean _ key (w.session_reply body)) refl refl)
        (if_both IsClean (is_empty t.argv) _ _ refl (
          reply-IsClean (exec_replied w _ key t.argv) (w.round_trip made (exec_call w f hint t))
            (λ body. exec_decoded-IsClean _ key t.argv (w.exec_reply body)) refl refl))

  create_decoded-IsClean :
      (hint : Str) (t : ToolCall) (made : List Call) (o : Option SessionReply)
      → IsClean (create_decoded w f hint t made o)
  create_decoded-IsClean hint t made none = refl
  create_decoded-IsClean hint t made (some x) = second_hop-IsClean hint t made x.key

  module _
      (valid : (hint : Str) → validate (build_create_request f.provisioning hint) ≡ ok tt) where
    presented-IsClean :
        (req : SessionRequest) (token : Option Str) → IsClean (presented w f req token)
    unfolding post_json
    presented-IsClean req none = refl
    presented-IsClean req (some token) =
        let hint = session_hint_for req.principal req.session_hint in
        let c = build_create_request f.provisioning hint in
        subst (λ v. IsClean (admitted w f req c v)) (sym (valid hint))
          (reply-IsClean (create_replied w f hint req.tool_call (create_call w c ∷ []))
            (w.round_trip [] (create_call w c))
            (λ body. create_decoded-IsClean hint req.tool_call _ (w.session_reply body)) refl refl)

    forward-IsClean :
        ((f.endpoint ≡ []) ⊎ (f.has_tls ≡ true))
        → (req : SessionRequest) → IsClean (forward w f req)
    unfolding forward
    forward-IsClean (inl bare) req =
        ap
          (λ e.
            is_misconfigured
              (if is_empty e
                then ([], err no_endpoint)
                else if f.has_tls
                then presented w f req w.token
                else ([], err no_transport)).1)
          bare
    forward-IsClean (inr secure) req = if_both IsClean (is_empty f.endpoint) _ _ refl (
        subst (λ t. IsClean (if t then presented w f req w.token else ([], err no_transport)))
          (sym secure) (presented-IsClean req w.token))

misconfigured_ne :
    (x y : Result Failure SessionResponse)
    → is_misconfigured x ≡ false
    → x ≡ y
    → is_misconfigured y ≡ true
    → ⊥
misconfigured_ne x y clean e bad = absurd (cc)

has_transport : (b : Built) → IsBuilt b → (b.forwarder.endpoint ≡ []) ⊎ (b.forwarder.has_tls ≡ true)
has_transport b built = elim built.secured [
  | inl (bare, plain, without) ↦ inl bare
  | inr (named, secure, floor) ↦ inr secure
]

-- A forward of a forwarder that `new_control_forwarder_with_dial` returned, for any request and in
-- any world, fails neither for want of a transport nor because the provisioning policy is
-- inadmissible.
pub built_forward :
    (name : Str) (d : DialConfig) (cred : Option FileServiceCredential) (p : ProvisioningPolicy)
    (b : Built) (w : World) (req : SessionRequest)
    → new_control_forwarder_with_dial name d cred p ≡ ok b
    → ((forward w b.forwarder req).1 ≢ err no_transport)
      × ((e : Inadmissible) → (forward w b.forwarder req).1 ≢ err (inadmissible e))
unfolding forward
built_forward name d cred p b w req h =
    let built : IsBuilt b = construction-IsBuilt name d cred p b h in
    let clean = forward-IsClean w b.forwarder built.admitted (has_transport b built) req in
    ((λ e. misconfigured_ne _ _ clean e refl), λ i e. misconfigured_ne _ _ clean e refl)
