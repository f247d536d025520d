-- ===== src/Ingress/Handler/Acknowledged.antt =====
-- internal/ingress/handler.go: the records that stand before a tool result.
use ocu_mcp_gateway.Base.{
  if_both, ◌≡◌, refl, Bool, true, false, not, ◌&&◌, ◌||◌, List, [], ◌∷◌, ◌++◌, Option, none, some,
  Str, codes, Result, ok, err, arith, is_empty, str_eq, any, subst, eq_of_some, str_eq_refl, sym,
  ◌∙◌,
}
use ocu_mcp_gateway.Auth.{Caller}
use ocu_mcp_gateway.Audit.{Envelope, is_success}
use ocu_mcp_gateway.Authz.Policy.{Denial, decide}
use ocu_mcp_gateway.Profile.{Deny, call_tool_request}
use ocu_mcp_gateway.Forward.Calls.{SessionRequest, SessionResponse}
use ocu_mcp_gateway.Forward.Results.{CallToolResult}
use ocu_mcp_gateway.Ingress.Response.{
  Response, ReadError, tool_result, write_rpc_error, write_decode_error,
}
use ocu_mcp_gateway.Ingress.Readers.{
  method_from, tool_name_from, tool_arguments_from, tool_call_from,
}
use ocu_mcp_gateway.Ingress.Exchange.{
  Env, Request, Effect, released, left, recorded, responded, is_allowed_origin,
  pinned_protocol_version, bearer_from_header,
}
use ocu_mcp_gateway.Ingress.Handler.{
  record_refusal, acknowledge, forward_answered, serve_turn, serialize, decided, authorize,
  validated, dispatch, enveloped, read_body, admit, authenticated, serve_http, session_request,
  emit_at_latch, is_allowed_tool, is_notification,
}

-- A success of `actor` under the correlation.
abbrev pub is_success_of : Str → Str → Envelope → Bool
is_success_of correlation actor e =
    is_success e.outcome && str_eq e.trace_id correlation && str_eq e.actor_id actor

module _ (correlation actor : Str) where
  -- A durable record of such a success.
  abbrev pub is_success_record : Effect → Bool
  is_success_record (recorded e durable) = durable && is_success_of correlation actor e
  is_success_record _ = false

  abbrev pub is_tool_result : Response → Bool
  is_tool_result (tool_result id c x) = str_eq c correlation
  is_tool_result _ = false

  abbrev pub is_answered_result : Effect → Bool
  is_answered_result (responded x) = is_tool_result x
  is_answered_result _ = false

  -- The tool results of the effects stand after a durable record of a success; `seen` says that
  -- there was one before.
  unfoldable pub acked : Bool → List Effect → Bool
  acked seen [] = true
  acked seen (e ∷ es) =
      let rest = acked (seen || is_success_record e) es in
      (seen || not (is_answered_result e)) && rest

  acked_seen : (es : List Effect) → acked true es ≡ true
  unfolding acked
  acked_seen [] = refl
  acked_seen (e ∷ es) = acked_seen es

  acked-append :
      (xs ys : List Effect) (b : Bool)
      → acked b xs ≡ true
      → acked false ys ≡ true
      → acked b (xs ++ ys) ≡ true
  unfolding acked
  acked-append [] ys true hx hy = acked_seen ys
  acked-append [] ys false hx hy = hy
  acked-append (x ∷ xs) ys b hx hy = ground (arith, acked-append xs ys (b || is_success_record x))

  acked_split :
      (before : List Effect) (e : Effect) (after : List Effect) (b : Bool)
      → acked b (before ++ (e ∷ after)) ≡ true
      → is_answered_result e ≡ true
      → (b || any is_success_record before) ≡ true
  unfolding acked
  acked_split [] e after b h res = ground arith
  acked_split (x ∷ before) e after b h res =
      ground (arith, acked_split before e after (b || is_success_record x))

  abbrev Acked : List Effect → Type 0
  Acked es = acked false es ≡ true

  module _ (env : Env) (r : Request) where
    refusal-acked :
        (id : Option Str) (actor resource : Str) (x : Response)
        → is_tool_result x ≡ false
        → acked false (record_refusal env r id actor resource x) ≡ true
    unfolding record_refusal acked
    refusal-acked id actor resource x e = ground (arith, e)

    module _ (c : Caller) (own : str_eq c.key_id actor ≡ true) where
      forward_answered-acked :
          (raw : Str) (q : SessionRequest) (o : Option SessionResponse)
          → acked false (forward_answered env r c raw q o) ≡ true
      unfolding acknowledge acked
      forward_answered-acked raw q none = refusal-acked _ _ _ _ refl
      forward_answered-acked raw q (some resp) = ground arith

      serialize-acked : (raw : Str) → acked false (serialize env r c raw) ≡ true
      unfolding serialize serve_turn acked
      serialize-acked raw =
          let q = session_request env r c raw in
          if_both Acked (env.serializer c.tenant (tool_call_from env.decoder env.scripts raw).name)
            _ _
            (acked-append (forward_answered env r c raw q (env.forward q)) (left c.tenant ∷ [])
              false (forward_answered-acked raw q (env.forward q)) refl)
            refl

      decided-acked :
          (raw : Str) (d : Result Denial (Unit {0})) → acked false (decided env r c raw d) ≡ true
      decided-acked raw (ok u) = serialize-acked raw
      decided-acked raw (err e) = refusal-acked _ _ _ _ refl

      validated-acked :
          (raw : Str) (d : Result Deny (Unit {0})) → acked false (validated env r c raw d) ≡ true
      unfolding authorize acked
      validated-acked raw (err d) = refl
      validated-acked raw (ok u) =
          if_both Acked (is_allowed_tool env r (tool_name_from env.decoder raw)) _ _
            (decided-acked raw (
              decide env.policy c.key_id (tool_name_from env.decoder raw)
                (tool_arguments_from env.decoder raw)))
            refl

      enveloped-acked :
          (raw : Str) (d : Result Deny (Unit {0})) → acked false (enveloped env r c raw d) ≡ true
      unfolding dispatch acked write_rpc_error
      enveloped-acked raw (err d) = refl
      enveloped-acked raw (ok u) = if_both Acked (is_notification env r raw) _ _ refl (
          if_both Acked
            (is_empty r.protocol_version
              && not (str_eq (method_from env.decoder raw) (codes "initialize")))
            _ _ refl
            (if_both Acked (str_eq (method_from env.decoder raw) (codes "initialize")) _ _ refl (
              if_both Acked (str_eq (method_from env.decoder raw) (codes "tools/list")) _ _ refl
                (validated-acked raw (env.validate call_tool_request raw)))))

      read_body-acked : (b : Result ReadError Str) → acked false (read_body env r c b) ≡ true
      unfolding acked write_decode_error
      read_body-acked (err ReadError.too_large) = refl
      read_body-acked (err ReadError.broken) = refl
      read_body-acked (ok raw) = enveloped-acked raw (env.envelope raw)

      admit-acked : acked false (admit env r c) ≡ true
      unfolding admit acked write_rpc_error
      admit-acked =
          if_both Acked (env.ceiling c.key_id) _ _
            (acked-append (read_body env r c env.read) (released c.key_id ∷ []) false
              (read_body-acked env.read) refl)
            (refusal-acked _ _ _ _ refl)

    logged_once-acked :
        (l : Option Bool) (actor : Str) → acked false (emit_at_latch env r l actor) ≡ true
    unfolding acked
    logged_once-acked none actor = refl
    logged_once-acked (some true) actor = refl
    logged_once-acked (some false) actor = refl

    authenticated-acked :
        (o : Option Caller)
        → ((c : Caller) → o ≡ some c → str_eq c.key_id actor ≡ true)
        → acked false (authenticated env r o) ≡ true
    unfolding acked write_rpc_error
    authenticated-acked none own = refl
    authenticated-acked (some c) own =
        acked-append (emit_at_latch env r r.latch c.key_id) (admit env r c) false
          (logged_once-acked r.latch c.key_id) (admit-acked c (own c refl))

    serve_http-acked :
        ((c : Caller)
          → env.authenticate (bearer_from_header r.authorization) ≡ some c
          → str_eq c.key_id actor ≡ true)
        → acked false (serve_http env r) ≡ true
    unfolding serve_http acked write_rpc_error
    serve_http-acked own = if_both Acked (not r.is_post) _ _ refl (
        if_both Acked
          (not (is_empty r.protocol_version)
            && not (str_eq r.protocol_version pinned_protocol_version))
          _ _ refl
          (if_both Acked (not (is_allowed_origin env.allowed_origins r.origin)) _ _ refl
            (authenticated-acked (env.authenticate (bearer_from_header r.authorization)) own)))

-- Before a tool result is answered, where the bearer of the request authenticates as `caller`, a
-- record was durably written that has the outcome of a success, the correlation of the answer as
-- its trace id and the key id of the caller as its actor.
pub result_recorded :
    (env : Env) (r : Request) (caller : Caller) (before after : List Effect) (id : Option Str)
    (correlation : Str) (x : CallToolResult)
    → env.authenticate (bearer_from_header r.authorization) ≡ some caller
    → serve_http env r ≡ before ++ (responded (tool_result id correlation x) ∷ after)
    → any (is_success_record correlation caller.key_id) before ≡ true
result_recorded env r caller before after id correlation x known split =
    acked_split correlation caller.key_id before (responded (tool_result id correlation x)) after
      false
      (subst (λ es. acked correlation caller.key_id false es ≡ true) split
        (serve_http-acked correlation caller.key_id env r (λ c same.
          subst (λ d. str_eq d.key_id caller.key_id ≡ true) (eq_of_some (sym known ∙ same))
            (str_eq_refl caller.key_id))))
      (str_eq_refl correlation)
