-- ===== src/Ingress/Handler/Guards.antt =====
-- internal/ingress/handler.go: what holds of a request that is forwarded.
use ocu_mcp_gateway.Base.{
  if_ind, ◌≡◌, refl, Bool, true, false, not, ◌&&◌, List, [], ◌∷◌, Option, none, some, Str, codes,
  Result, ok, err, arith, is_empty, str_eq, All, Any, All-append, inl, inr, subst,
}
use ocu_mcp_gateway.Auth.{Caller}
use ocu_mcp_gateway.Authz.Policy.{Denial, decide}
use ocu_mcp_gateway.Profile.{Deny, call_tool_request}
use ocu_mcp_gateway.Forward.Calls.{SessionRequest, SessionResponse}
use ocu_mcp_gateway.Ingress.Response.{Response, ReadError}
use ocu_mcp_gateway.Ingress.Readers.{
  method_from, tool_name_from, tool_arguments_from, tool_call_from,
}
use ocu_mcp_gateway.Ingress.Exchange.{
  Env, Request, Effect, logged, acquired, released, entered, left, forwarded, recorded, responded,
  is_allowed_origin, pinned_protocol_version, bearer_from_header,
}
use ocu_mcp_gateway.Ingress.Handler.{
  record_refusal, acknowledge, forward_answered, serve_turn, serialize, decided, authorize,
  validated, dispatch, enveloped, read_body, admit, authenticated, serve_http, session_request,
  emit_at_latch, is_allowed_tool, is_notification,
}

module _ (env : Env) (r : Request) where
  -- `q` is the request of an authenticated caller within its ceiling, for an advertised tool, that the
  -- policy grants, of a body that passed every check, at the turn of the caller's session.
  pub record Permitted (q : SessionRequest) : Type 0 where
    pub caller : Caller
    pub raw : Str
    pub posted : r.is_post ≡ true
    pub origin_allowed : is_allowed_origin env.allowed_origins r.origin ≡ true
    pub known : env.authenticate (bearer_from_header r.authorization) ≡ some caller
    pub within_ceiling : env.ceiling caller.key_id ≡ true
    pub body_read : env.read ≡ ok raw
    pub single_message : env.envelope raw ≡ ok tt
    pub is_call : is_notification env r raw ≡ false
    pub valid : env.validate call_tool_request raw ≡ ok tt
    pub advertised : is_allowed_tool env r (tool_name_from env.decoder raw) ≡ true
    pub granted :
        decide env.policy caller.key_id
          (tool_name_from env.decoder raw)
          (tool_arguments_from env.decoder raw)
        ≡ ok tt
    pub in_turn :
        env.serializer caller.tenant (tool_call_from env.decoder env.scripts raw).name ≡ true
    pub request : q ≡ session_request env r caller raw

  pub Sound : Effect → Type 0
  Sound (logged e b) = Unit
  Sound (acquired k) = Unit
  Sound (released k) = Unit
  Sound (entered k n) = Unit
  Sound (left k) = Unit
  Sound (forwarded q) = Permitted q
  Sound (recorded e b) = Unit
  Sound (responded x) = Unit

  record_refusal-IsSound :
      (id : Option Str) (actor resource : Str) (x : Response)
      → All Sound (record_refusal env r id actor resource x)
  unfolding record_refusal Sound
  record_refusal-IsSound id actor resource x = (tt, (tt, tt))

  forward_answered-IsSound :
      (c : Caller) (raw : Str) (q : SessionRequest) (o : Option SessionResponse)
      → All Sound (forward_answered env r c raw q o)
  unfolding acknowledge Sound
  forward_answered-IsSound c raw q none = record_refusal-IsSound _ _ _ _
  forward_answered-IsSound c raw q (some resp) = (tt, (tt, tt))

  module _ (posted : r.is_post ≡ true)
      (origin_allowed : is_allowed_origin env.allowed_origins r.origin ≡ true) (c : Caller)
      (known : env.authenticate (bearer_from_header r.authorization) ≡ some c) where
    module _ (within_ceiling : env.ceiling c.key_id ≡ true) (raw : Str)
        (body_read : env.read ≡ ok raw) where
      module _ (single_message : env.envelope raw ≡ ok tt)
          (is_call : is_notification env r raw ≡ false) where
        serialize-IsSound :
            env.validate call_tool_request raw ≡ ok tt
            → is_allowed_tool env r (tool_name_from env.decoder raw) ≡ true
            → decide env.policy c.key_id
                (tool_name_from env.decoder raw)
                (tool_arguments_from env.decoder raw)
              ≡ ok tt
            → All Sound (serialize env r c raw)
        unfolding serialize serve_turn Sound
        serialize-IsSound valid advertised granted =
            let q = session_request env r c raw in
            if_ind (All Sound)
              (env.serializer c.tenant (tool_call_from env.decoder env.scripts raw).name) _ _
              (λ turn. (
                tt,
                (
                  record {
                    caller = c;
                    raw = raw;
                    posted = posted;
                    origin_allowed = origin_allowed;
                    known = known;
                    within_ceiling = within_ceiling;
                    body_read = body_read;
                    single_message = single_message;
                    is_call = is_call;
                    valid = valid;
                    advertised = advertised;
                    granted = granted;
                    in_turn = turn;
                    request = refl;
                  },
                  All-append Sound (forward_answered env r c raw q (env.forward q))
                      (left c.tenant ∷ []) (forward_answered-IsSound c raw q (env.forward q))
                      (tt, tt),
                ),
              ))
              (λ full. (tt, tt))

        decided-IsSound :
            env.validate call_tool_request raw ≡ ok tt
            → is_allowed_tool env r (tool_name_from env.decoder raw) ≡ true
            → (d : Result Denial (Unit {0}))
            → decide env.policy c.key_id
                (tool_name_from env.decoder raw)
                (tool_arguments_from env.decoder raw)
              ≡ d
            → All Sound (decided env r c raw d)
        decided-IsSound valid advertised (ok u) granted = serialize-IsSound valid advertised granted
        decided-IsSound valid advertised (err e) denied = record_refusal-IsSound _ _ _ _

        validated-IsSound :
            (d : Result Deny (Unit {0}))
            → env.validate call_tool_request raw ≡ d
            → All Sound (validated env r c raw d)
        unfolding authorize Sound
        validated-IsSound (err d) invalid = (tt, tt)
        validated-IsSound (ok u) valid =
            if_ind (All Sound) (is_allowed_tool env r (tool_name_from env.decoder raw)) _ _
              (λ advertised.
                decided-IsSound valid advertised
                  (decide env.policy c.key_id (tool_name_from env.decoder raw)
                    (tool_arguments_from env.decoder raw))
                  refl)
              (λ delisted. (tt, tt))

      enveloped-IsSound :
          (d : Result Deny (Unit {0})) → env.envelope raw ≡ d → All Sound (enveloped env r c raw d)
      unfolding dispatch Sound
      enveloped-IsSound (err d) batched = (tt, tt)
      enveloped-IsSound (ok u) single =
          if_ind (All Sound) (is_notification env r raw) _ _ (λ dropped. (tt, tt))
            (λ is_call.
              if_ind (All Sound)
                (is_empty r.protocol_version
                  && not (str_eq (method_from env.decoder raw) (codes "initialize")))
                _ _ (λ unversioned. (tt, tt))
                (λ versioned.
                  if_ind (All Sound) (str_eq (method_from env.decoder raw) (codes "initialize")) _ _
                    (λ initialize. (tt, tt))
                    (λ other.
                      if_ind (All Sound) (str_eq (method_from env.decoder raw) (codes "tools/list"))
                        _ _ (λ listing. (tt, tt))
                        (λ call.
                          validated-IsSound single is_call (env.validate call_tool_request raw)
                            refl))))

    read_body-IsSound :
        env.ceiling c.key_id ≡ true
        → (b : Result ReadError Str) → env.read ≡ b
        → All Sound (read_body env r c b)
    unfolding Sound
    read_body-IsSound within (err e) unread = (tt, tt)
    read_body-IsSound within (ok raw) body_read =
        enveloped-IsSound within raw body_read (env.envelope raw) refl

    admit-IsSound : All Sound (admit env r c)
    unfolding admit record_refusal Sound
    admit-IsSound =
        if_ind (All Sound) (env.ceiling c.key_id) _ _
          (λ within. (
            tt,
            All-append Sound (read_body env r c env.read) (released c.key_id ∷ [])
                (read_body-IsSound within env.read refl) (tt, tt),
          ))
          (λ exceeded. (tt, (tt, tt)))

  logged_once-IsSound : (l : Option Bool) (actor : Str) → All Sound (emit_at_latch env r l actor)
  unfolding Sound
  logged_once-IsSound none actor = (tt, tt)
  logged_once-IsSound (some true) actor = tt
  logged_once-IsSound (some false) actor = (tt, tt)

  authenticated-IsSound :
      r.is_post ≡ true
      → is_allowed_origin env.allowed_origins r.origin ≡ true
      → (c : Option Caller) → env.authenticate (bearer_from_header r.authorization) ≡ c
      → All Sound (authenticated env r c)
  unfolding Sound
  authenticated-IsSound posted origin none unknown = (tt, (tt, tt))
  authenticated-IsSound posted origin (some c) known =
      All-append Sound _ _ (logged_once-IsSound r.latch c.key_id)
        (admit-IsSound posted origin c known)

  serve_http-IsSound : All Sound (serve_http env r)
  unfolding serve_http Sound
  serve_http-IsSound =
      if_ind (All Sound) (not r.is_post) _ _ (λ other. (tt, tt))
        (λ posted.
          if_ind (All Sound)
            (not (is_empty r.protocol_version)
              && not (str_eq r.protocol_version pinned_protocol_version))
            _ _ (λ mismatched. (tt, tt))
            (λ matched.
              if_ind (All Sound) (not (is_allowed_origin env.allowed_origins r.origin)) _ _
                (λ foreign. (tt, tt))
                (λ origin.
                  authenticated-IsSound (ground arith) (ground arith)
                    (env.authenticate (bearer_from_header r.authorization)) refl)))

  of_Sound :
      (q : SessionRequest) (es : List Effect)
      → All Sound es
      → Any (λ e. e ≡ forwarded q) es
      → Permitted q
  unfolding Sound
  of_Sound q [] h m = elim m [ ]
  of_Sound q (e ∷ es) h (inl same) = subst Sound same h.0
  of_Sound q (e ∷ es) h (inr m) = of_Sound q es h.1 m

  -- A session request that is forwarded comes of a POST with an allowed origin, of a caller that
  -- authenticated, within its ceiling and at its session's turn, whose body is one valid tools/call
  -- message with an id, for an advertised tool, that the policy grants to that caller with the
  -- arguments of that body; and it is the request of that caller and body.
  pub forwarded-IsPermitted :
      (q : SessionRequest) → Any (λ e. e ≡ forwarded q) (serve_http env r) → Permitted q
  forwarded-IsPermitted q m = of_Sound q (serve_http env r) serve_http-IsSound m
