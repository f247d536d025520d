-- ===== src/Gateway/Trail/Unaudited.antt =====
-- internal/ingress/handler.go, internal/audit/emitter.go and internal/audit/bus.go together: the
-- answers of a gateway whose records go to a bus.
use ocu_mcp_gateway.Base.{
  ◌≡◌, ◌≢◌, refl, Bool, true, false, ◌&&◌, List, [], ◌∷◌, ◌++◌, Option, none, some, Str, any, Json,
  Result, ok, err, arith,
}
use ocu_mcp_gateway.Auth.{Caller}
use ocu_mcp_gateway.Audit.{Envelope, Invalid}
use ocu_mcp_gateway.Audit.Emitter.{Emitter, emit, emit_authn, checked, marshalled}
use ocu_mcp_gateway.Forward.Results.{CallToolResult}
use ocu_mcp_gateway.Ingress.Response.{tool_result}
use ocu_mcp_gateway.Ingress.Exchange.{
  Env, Request, Effect, logged, acquired, released, entered, left, forwarded, recorded, responded,
  bearer_from_header,
}
use ocu_mcp_gateway.Ingress.Handler.{serve_http}
use ocu_mcp_gateway.Ingress.Handler.Acknowledged.{is_success_record, is_success_of, result_recorded}
use ocu_mcp_gateway.Gateway.Trail.{bus_sink, is_ok, agree, replay}
use ocu_mcp_gateway.Gateway.Trail.Durable.{if_some}

module _ (marshal : Json → Option Str) where
  marshalled-fails :
      (t : Emitter (bus_sink marshal)) (o : Option Str)
      → is_ok (marshalled (bus_sink marshal) t o).1 ≡ false
  marshalled-fails t none = refl
  marshalled-fails t (some payload) = refl

  checked-fails :
      (t : Emitter (bus_sink marshal)) (object : Json) (v : Result Invalid (Unit {0}))
      → is_ok (checked (bus_sink marshal) t object v).1 ≡ false
  checked-fails t object (ok u) = marshalled-fails t (marshal object)
  checked-fails t object (err i) = refl

  emit-fails :
      (t : Emitter (bus_sink marshal)) (e : Envelope)
      → is_ok (emit (bus_sink marshal) t e).1 ≡ false
  unfolding emit
  emit-fails t e = checked-fails _ _ _

  -- What agrees with a failed emit is no record.
  unrecorded : (r b c : Bool) → r ≡ false → agree r b ≡ true → b && c ≡ false
  unrecorded false false c e a = refl
  unrecorded false true c e a = absurd (cc)
  unrecorded true b c e a = absurd (cc)

  module _ (correlation actor : Str) where
    replay-unrecorded :
        (es : List Effect) (t t' : Emitter (bus_sink marshal))
        → replay (bus_sink marshal) t es ≡ some t'
        → any (is_success_record correlation actor) es ≡ false
    unfolding replay
    replay-unrecorded [] t t' e = refl
    replay-unrecorded (logged a b ∷ es) t t' e =
        let x = emit_authn (bus_sink marshal) t a in
        replay-unrecorded es x.0 t'
          (if_some (agree (is_ok x.1) b) (replay (bus_sink marshal) x.0 es) e).1
    replay-unrecorded (recorded a b ∷ es) t t' e =
        let x = emit (bus_sink marshal) t a in
        let (agrees, rest) = if_some (agree (is_ok x.1) b) (replay (bus_sink marshal) x.0 es) e in
        ground (
          arith,
          unrecorded (is_ok x.1) b (is_success_of correlation actor a) (emit-fails t a) agrees,
          replay-unrecorded es x.0 t' rest,
        )
    replay-unrecorded (acquired k ∷ es) t t' e = replay-unrecorded es t t' e
    replay-unrecorded (released k ∷ es) t t' e = replay-unrecorded es t t' e
    replay-unrecorded (entered k n ∷ es) t t' e = replay-unrecorded es t t' e
    replay-unrecorded (left k ∷ es) t t' e = replay-unrecorded es t t' e
    replay-unrecorded (forwarded q ∷ es) t t' e = replay-unrecorded es t t' e
    replay-unrecorded (responded x ∷ es) t t' e = replay-unrecorded es t t' e

-- Where the audit records go to a bus, whatever its endpoint: if the emits of a request's effects up
-- to a point returned what the handler was told of them, and the request carries the key of a caller,
-- then it is not answered with a tool result at that point.
pub bus_unanswered :
    (marshal : Json → Option Str) (env : Env) (r : Request) (caller : Caller)
    (before after : List Effect) (id : Option Str) (correlation : Str) (x : CallToolResult)
    (t t' : Emitter (bus_sink marshal))
    → env.authenticate (bearer_from_header r.authorization) ≡ some caller
    → replay (bus_sink marshal) t before ≡ some t'
    → serve_http env r ≢ before ++ (responded (tool_result id correlation x) ∷ after)
bus_unanswered marshal env r caller before after id correlation x t t' known e = λ split. absurd (
    ground (
      arith,
      replay-unrecorded marshal correlation caller.key_id before t t' e,
      result_recorded env r caller before after id correlation x known split,
    ))
