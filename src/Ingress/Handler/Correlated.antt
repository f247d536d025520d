-- ===== src/Ingress/Handler/Correlated.antt =====
-- internal/ingress/handler.go and response.go: the ids of errors that are served with a
-- 2xx status.
use ocu_mcp_gateway.Base.{
  if_ind, ℕ, ◌≡◌, ◌≢◌, refl, Bool, true, false, not, ◌&&◌, ◌||◌, List, [], ◌∷◌, ◌++◌, Option, none,
  some, is_some, if◌then◌else◌, Str, codes, Result, ok, err, arith, Bool-cases, is_empty, str_eq,
  all, subst, ℤ, inl, inr,
}
use ocu_mcp_gateway.Auth.{Caller}
use ocu_mcp_gateway.Authz.Policy.{Denial, decide}
use ocu_mcp_gateway.Profile.{
  Deny, Reason, unknown, base_schema, profile_schema, over_size, batching, method_not_found,
  call_tool_request,
}
use ocu_mcp_gateway.Forward.Calls.{SessionRequest, SessionResponse}
use ocu_mcp_gateway.Forward.Results.{CallToolResult}
use ocu_mcp_gateway.Ingress.Response.{
  Response, ReadError, rpc_error, is_2xx, deny_status, write_profile_deny, write_rpc_error,
  write_decode_error, write_tool_result, validated_result,
}
use ocu_mcp_gateway.Ingress.Readers.{
  method_from, id_from, tool_name_from, tool_arguments_from, tool_call_from,
}
use ocu_mcp_gateway.Ingress.Exchange.{
  Env, Request, Effect, released, left, responded, is_absent, is_allowed_origin,
  pinned_protocol_version, bearer_from_header,
}
use ocu_mcp_gateway.Ingress.Handler.{
  record_refusal, acknowledge, forward_answered, serve_turn, serialize, decided, authorize,
  validated, dispatch, enveloped, read_body, admit, authenticated, serve_http, session_request,
  emit_at_latch, is_allowed_tool, is_notification,
}

abbrev pub carries_id : Response → Bool
carries_id (rpc_error status code reason id) = not (is_2xx status) || is_some id
carries_id _ = true

abbrev pub is_correlated : Effect → Bool
is_correlated (responded x) = carries_id x
is_correlated _ = true

all-append :
    (xs ys : List Effect)
    → all is_correlated xs ≡ true
    → all is_correlated ys ≡ true
    → all is_correlated (xs ++ ys) ≡ true
all-append [] ys hx hy = hy
all-append (x ∷ xs) ys hx hy = ground (arith, all-append xs ys)

all_split :
    (before : List Effect) (e : Effect) (after : List Effect)
    → all is_correlated (before ++ (e ∷ after)) ≡ true
    → is_correlated e ≡ true
all_split [] e after h = ground arith
all_split (x ∷ before) e after h = all_split before e after (ground arith)

abbrev AllCorrelated : List Effect → Type 0
AllCorrelated es = all is_correlated es ≡ true

deny_id : (id : Option Str) (d : Deny) → carries_id (write_profile_deny id d) ≡ true
deny_id id d = by_reason d.reason
  where
    by_reason : (r : Reason) → not (is_2xx (deny_status r)) || is_some id ≡ true
    by_reason unknown = refl
    by_reason base_schema = refl
    by_reason profile_schema = refl
    by_reason over_size = refl
    by_reason batching = refl
    by_reason method_not_found = refl

present : (o : Option Str) → is_absent o ≡ false → is_some o ≡ true
present none e = absurd (cc)
present (some id) e = refl

module _ (env : Env) (r : Request) where
  refusal_id :
      (id : Option Str) (actor resource : Str) (x : Response)
      → carries_id x ≡ true
      → all is_correlated (record_refusal env r id actor resource x) ≡ true
  unfolding record_refusal
  refusal_id id actor resource x e = elim (Bool-cases (is_some id)) [
    | inl here ↦ ground (arith, e, here)
    | inr gone ↦ ground (arith, e, gone)
  ]

  result_id :
      (id : Option Str) (correlation : Str) (o : Option CallToolResult)
      → is_some id ≡ true
      → carries_id (write_tool_result env.validate_result id correlation o) ≡ true
  result_id id correlation none e = ground (arith, e)
  result_id id correlation (some x) e = checked (env.validate_result x)
    where
      checked :
          (v : Result Deny (Unit {0})) → carries_id (validated_result id correlation x v) ≡ true
      checked (ok u) = refl
      checked (err d) = refl

  module _ (c : Caller) (raw : Str) (given : is_some (id_from env.decoder raw) ≡ true) where
    forward_answered_id :
        (q : SessionRequest) (o : Option SessionResponse)
        → all is_correlated (forward_answered env r c raw q o) ≡ true
    unfolding acknowledge
    forward_answered_id q none = refusal_id _ _ _ _ refl
    forward_answered_id q (some resp) = ground (
      arith,
      given,
      result_id (id_from env.decoder raw)
          (if is_empty resp.correlation then env.correlation else resp.correlation) resp.result
          given,
    )

    serialize_id : all is_correlated (serialize env r c raw) ≡ true
    unfolding serialize serve_turn
    serialize_id =
        let q = session_request env r c raw in
        if_ind AllCorrelated
          (env.serializer c.tenant (tool_call_from env.decoder env.scripts raw).name) _ _
          (λ turn.
            all-append (forward_answered env r c raw q (env.forward q)) (left c.tenant ∷ [])
              (forward_answered_id q (env.forward q)) refl)
          (λ full. refl)

    decided_id : (d : Result Denial (Unit {0})) → all is_correlated (decided env r c raw d) ≡ true
    decided_id (ok u) = serialize_id
    decided_id (err e) = refusal_id _ _ _ _ refl

    validated_id : (d : Result Deny (Unit {0})) → all is_correlated (validated env r c raw d) ≡ true
    unfolding authorize
    validated_id (err d) = ground (arith, deny_id (id_from env.decoder raw) d)
    validated_id (ok u) =
        if_ind AllCorrelated (is_allowed_tool env r (tool_name_from env.decoder raw)) _ _
          (λ listed. decided_id (
            decide env.policy c.key_id (tool_name_from env.decoder raw)
              (tool_arguments_from env.decoder raw)))
          (λ delisted. ground (arith, given))

  enveloped_id :
      (c : Caller) (raw : Str) (d : Result Deny (Unit {0}))
      → all is_correlated (enveloped env r c raw d) ≡ true
  unfolding dispatch write_rpc_error
  enveloped_id c raw (err d) = ground (arith, deny_id (id_from env.decoder raw) d)
  enveloped_id c raw (ok u) =
      if_ind AllCorrelated (is_notification env r raw) _ _ (λ dropped. refl)
        (λ message.
          if_ind AllCorrelated
            (is_empty r.protocol_version
              && not (str_eq (method_from env.decoder raw) (codes "initialize")))
            _ _ (λ unversioned. refl)
            (λ versioned.
              if_ind AllCorrelated (str_eq (method_from env.decoder raw) (codes "initialize")) _ _
                (λ initialize. refl)
                (λ other.
                  if_ind AllCorrelated (str_eq (method_from env.decoder raw) (codes "tools/list")) _
                    _ (λ listing. refl)
                    (λ call.
                      validated_id c raw (present (id_from env.decoder raw) (ground arith))
                        (env.validate call_tool_request raw)))))

  read_body_id :
      (c : Caller) (b : Result ReadError Str) → all is_correlated (read_body env r c b) ≡ true
  unfolding write_decode_error
  read_body_id c (err ReadError.too_large) = refl
  read_body_id c (err ReadError.broken) = refl
  read_body_id c (ok raw) = enveloped_id c raw (env.envelope raw)

  admit_id : (c : Caller) → all is_correlated (admit env r c) ≡ true
  unfolding admit write_rpc_error
  admit_id c =
      if_ind AllCorrelated (env.ceiling c.key_id) _ _
        (λ within.
          all-append (read_body env r c env.read) (released c.key_id ∷ []) (read_body_id c env.read)
            refl)
        (λ exceeded. refusal_id _ _ _ _ refl)

  logged_once_id :
      (l : Option Bool) (actor : Str) → all is_correlated (emit_at_latch env r l actor) ≡ true
  logged_once_id none actor = refl
  logged_once_id (some true) actor = refl
  logged_once_id (some false) actor = refl

  authenticated_id : (c : Option Caller) → all is_correlated (authenticated env r c) ≡ true
  unfolding write_rpc_error
  authenticated_id none = refl
  authenticated_id (some c) =
      all-append (emit_at_latch env r r.latch c.key_id) (admit env r c)
        (logged_once_id r.latch c.key_id) (admit_id c)

  serve_http_id : all is_correlated (serve_http env r) ≡ true
  unfolding serve_http write_rpc_error
  serve_http_id =
      if_ind AllCorrelated (not r.is_post) _ _ (λ other. refl)
        (λ posted.
          if_ind AllCorrelated
            (not (is_empty r.protocol_version)
              && not (str_eq r.protocol_version pinned_protocol_version))
            _ _ (λ mismatched. refl)
            (λ matched.
              if_ind AllCorrelated (not (is_allowed_origin env.allowed_origins r.origin)) _ _
                (λ foreign. refl)
                (λ origin.
                  authenticated_id (env.authenticate (bearer_from_header r.authorization)))))

  -- An error that answers a request with a 2xx status carries an id.
  pub error_id :
      (before after : List Effect) (status : ℕ) (code : ℤ) (reason : Str) (id : Option Str)
      → serve_http env r ≡ before ++ (responded (rpc_error status code reason id) ∷ after)
      → is_2xx status ≡ true
      → id ≢ none
  error_id before after status code reason id split success = λ gone. absurd (
      ground (
        arith,
        gone,
        success,
        all_split before (responded (rpc_error status code reason id)) after
            (subst (λ es. all is_correlated es ≡ true) split serve_http_id),
      ))
