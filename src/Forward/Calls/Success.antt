-- ===== src/Forward/Calls/Success.antt =====
-- internal/forward/http.go, Forward: what a success rests on.
use ocu_mcp_gateway.Base.{
  ◌≡◌, ◌≢◌, inl, inr, true, List, [], Option, none, some, Result, ok, err, Str, codes, str_eq,
  is_empty, arith, Bool-cases, Option-cases, Result-cases,
}
use ocu_mcp_gateway.Forward.Session.{build_create_request, validate}
use ocu_mcp_gateway.Forward.Results.{CallToolResult, project_call_tool_result}
use ocu_mcp_gateway.Forward.Calls.{
  World, ControlForwarder, SessionRequest, SessionResponse, SessionReply, Call, second_hop,
  post_json, forward, status_replied, exec_replied, projected, Failure, presented,
}
use ocu_mcp_gateway.Forward.Calls.Order.{hint, first}

module _ (w : World) (f : ControlForwarder) (req : SessionRequest) where
  -- Control took the create call and named the session that the response refers to.
  pub record Granted (r : SessionResponse) : Type 0 where
    pub with_endpoint : f.endpoint ≢ []
    pub secured : f.has_tls ≡ true
    pub credentialed : w.token ≢ none
    pub valid : validate (build_create_request f.provisioning (hint w f req)) ≡ ok tt
    pub body : Str
    pub answered : post_json w [] (first w f req) ≡ ok body
    pub reply : SessionReply
    pub decoded : w.session_reply body ≡ some reply
    pub correlated : r.correlation ≡ reply.key

  status_replied-key :
      (made : List Call) (key : Str) (o : Result Failure Str) (r : SessionResponse)
      → (status_replied w made key o).1 ≡ ok r
      → r.correlation ≡ key
  status_replied-key made key (err x) r e = absurd (cc)
  status_replied-key made key (ok body) r e = elim (Option-cases (w.session_reply body)) [
    | inl bad ↦ absurd (ground (arith, bad))
    | inr (reply, read) ↦ ground (arith, read)
  ]

  projected-key :
      (made : List Call) (key : Str) (o : Option CallToolResult) (r : SessionResponse)
      → (projected w made key o).1 ≡ ok r
      → r.correlation ≡ key
  projected-key made key none r e = absurd (cc)
  projected-key made key (some x) r e = cc

  exec_replied-key :
      (made : List Call) (key : Str) (argv : List Str) (o : Result Failure Str)
      (r : SessionResponse)
      → (exec_replied w made key argv o).1 ≡ ok r
      → r.correlation ≡ key
  exec_replied-key made key argv (err x) r e = absurd (cc)
  exec_replied-key made key argv (ok body) r e = elim (Option-cases (w.exec_reply body)) [
    | inl bad ↦ absurd (ground (arith, bad))
    | inr (reply, read) ↦
        projected-key made key (project_call_tool_result w.decode w.decimal reply argv) r
          (rw (read) at e)
  ]

  second_hop-key :
      (made : List Call) (key : Str) (r : SessionResponse)
      → (second_hop w f (hint w f req) req.tool_call made key).1 ≡ ok r
      → r.correlation ≡ key
  unfolding second_hop
  second_hop-key made key r e =
      elim (Bool-cases (str_eq req.tool_call.name (codes "resolve_scope"))) [
        | inl is_scope ↦ status_replied-key _ key _ r (rw (is_scope) at e)
        | inr other ↦ elim (Bool-cases (is_empty req.tool_call.argv)) [
          | inl bare ↦ ground (arith, other, bare)
          | inr full ↦ exec_replied-key _ key _ _ r (rw (other, full) at e)
        ]
      ]

  -- What the answer to the create call was.
  record Answered (r : SessionResponse) : Type 0 where
    valid : validate (build_create_request f.provisioning (hint w f req)) ≡ ok tt
    body : Str
    answered : post_json w [] (first w f req) ≡ ok body
    reply : SessionReply
    decoded : w.session_reply body ≡ some reply
    correlated : r.correlation ≡ reply.key

  presented-IsAnswered :
      (token : Str) (r : SessionResponse) → (presented w f req (some token)).1 ≡ ok r → Answered r
  presented-IsAnswered token r e =
      elim (Result-cases (validate (build_create_request f.provisioning (hint w f req)))) [
        | inl (u, fine) ↦ elim (Result-cases (post_json w [] (first w f req))) [
          | inl (body, answer) ↦ elim (Option-cases (w.session_reply body)) [
            | inl bad ↦ absurd (cc (rw (fine, answer, bad) at e))
            | inr (reply, read) ↦ record {
              valid = fine;
              body = body;
              answered = answer;
              reply = reply;
              decoded = read;
              correlated = second_hop-key _ reply.key r (rw (fine, answer, read) at e);
            }
          ]
          | inr (x, refused) ↦ absurd (cc (rw (fine, refused) at e))
        ]
        | inr (x, bad) ↦ absurd (cc (rw (bad) at e))
      ]

  -- A forward that succeeds had an endpoint, a secured transport and a credential, its create request
  -- passed the admission checks, Control answered the create call with a 2xx status, and the response
  -- carries the session key of that answer.
  pub forward-IsGranted : (r : SessionResponse) → (forward w f req).1 ≡ ok r → Granted r
  unfolding forward
  forward-IsGranted r e = elim (Option-cases w.token) [
    | inl missing ↦ absurd (ground (arith, missing))
    | inr (token, given) ↦
        let a = presented-IsAnswered token r (ground (arith, given)) in
        record {
          with_endpoint = λ bad. absurd (ground (arith, bad));
          secured = ground arith;
          credentialed = λ bad. absurd (cc (bad, given));
          valid = a.valid;
          body = a.body;
          answered = a.answered;
          reply = a.reply;
          decoded = a.decoded;
          correlated = a.correlated;
        }
  ]
