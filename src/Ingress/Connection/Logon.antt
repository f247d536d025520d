-- ===== src/Ingress/Connection/Logon.antt =====
-- internal/ingress/handler.go: the logons that are recorded on one connection.
use ocu_mcp_gateway.Base.{
  if_both, ℕ, ◌+◌, ◌≡◌, Bool, true, false, not, ◌&&◌, List, [], ◌∷◌, ◌++◌, Option, none, some,
  if◌then◌else◌, Str, codes, str_eq, is_empty, Result, ok, err, arith,
}
use ocu_mcp_gateway.Auth.{Caller}
use ocu_mcp_gateway.Audit.{is_success}
use ocu_mcp_gateway.Authz.Policy.{Denial}
use ocu_mcp_gateway.Profile.{Deny, call_tool_request}
use ocu_mcp_gateway.Forward.Calls.{SessionRequest, SessionResponse}
use ocu_mcp_gateway.Ingress.Response.{Response, ReadError}
use ocu_mcp_gateway.Ingress.Readers.{method_from}
use ocu_mcp_gateway.Ingress.Exchange.{
  Env, Request, Effect, logged, acquired, released, left, responded, is_allowed_origin,
  pinned_protocol_version, bearer_from_header,
}
use ocu_mcp_gateway.Ingress.Handler.{
  record_refusal, acknowledge, forward_answered, serve_turn, serialize, decided, authorize,
  validated, dispatch, enveloped, read_body, admit, authenticated, serve_http, session_request,
  emit_at_latch, is_notification,
}
use ocu_mcp_gateway.Ingress.Connection.{caller_of, latch_for, latched, serve_one, serve_connection}

abbrev pub bit : Bool → ℕ
bit false = 0
bit true = 1

-- A logon of a success that reached the trail.
abbrev pub is_logon : Effect → Bool
is_logon (logged e emitted) = is_success e.outcome && emitted
is_logon _ = false

unfoldable pub logons : List Effect → ℕ
logons [] = 0
logons (e ∷ es) = bit (is_logon e) + logons es

logons-append : (xs ys : List Effect) → logons (xs ++ ys) ≡ logons xs + logons ys
unfolding logons
logons-append [] ys = omega arith
logons-append (x ∷ xs) ys = omega (arith, logons-append xs ys)

logons-append_nil : (xs ys : List Effect) → logons xs ≡ 0 → logons ys ≡ 0 → logons (xs ++ ys) ≡ 0
logons-append_nil xs ys hx hy = omega (arith, logons-append xs ys)

abbrev Quiet : List Effect → Type 0
Quiet es = logons es ≡ 0

-- After the logon, nothing is logged.
module _ (env : Env) (r : Request) where
  refusal-quiet :
      (id : Option Str) (actor resource : Str) (x : Response)
      → logons (record_refusal env r id actor resource x) ≡ 0
  unfolding record_refusal logons
  refusal-quiet id actor resource x = omega arith

  answered-quiet :
      (c : Caller) (raw : Str) (q : SessionRequest) (o : Option SessionResponse)
      → logons (forward_answered env r c raw q o) ≡ 0
  unfolding acknowledge logons
  answered-quiet c raw q none = refusal-quiet _ _ _ _
  answered-quiet c raw q (some resp) = omega arith

  responded-quiet : (x : Response) → logons (responded x ∷ []) ≡ 0
  unfolding logons
  responded-quiet x = omega arith

  turn-quiet : (c : Caller) (raw : Str) → logons (serve_turn env r c raw) ≡ 0
  unfolding serve_turn logons
  turn-quiet c raw =
      let q = session_request env r c raw in
      omega (
        arith,
        logons-append (forward_answered env r c raw q (env.forward q)) (left c.tenant ∷ []),
        answered-quiet c raw q (env.forward q),
      )

  decided-quiet :
      (c : Caller) (raw : Str) (d : Result Denial (Unit {0})) → logons (decided env r c raw d) ≡ 0
  unfolding serialize
  decided-quiet c raw (ok u) = if_both Quiet _ _ _ (turn-quiet c raw) (responded-quiet _)
  decided-quiet c raw (err e) = refusal-quiet _ _ _ _

  validated-quiet :
      (c : Caller) (raw : Str) (d : Result Deny (Unit {0})) → logons (validated env r c raw d) ≡ 0
  unfolding authorize
  validated-quiet c raw (ok u) = if_both Quiet _ _ _ (decided-quiet c raw _) (responded-quiet _)
  validated-quiet c raw (err e) = responded-quiet _

  enveloped-quiet :
      (c : Caller) (raw : Str) (d : Result Deny (Unit {0})) → logons (enveloped env r c raw d) ≡ 0
  unfolding dispatch
  enveloped-quiet c raw (err e) = responded-quiet _
  enveloped-quiet c raw (ok u) = if_both Quiet (is_notification env r raw) _ _ (responded-quiet _) (
      if_both Quiet
        (is_empty r.protocol_version
          && not (str_eq (method_from env.decoder raw) (codes "initialize")))
        _ _ (responded-quiet _)
        (if_both Quiet (str_eq (method_from env.decoder raw) (codes "initialize")) _ _
          (responded-quiet _)
          (if_both Quiet (str_eq (method_from env.decoder raw) (codes "tools/list")) _ _
            (responded-quiet _) (validated-quiet c raw (env.validate call_tool_request raw)))))

  read_body-quiet : (c : Caller) (b : Result ReadError Str) → logons (read_body env r c b) ≡ 0
  read_body-quiet c (err e) = responded-quiet _
  read_body-quiet c (ok raw) = enveloped-quiet c raw (env.envelope raw)

  held-quiet :
      (c : Caller)
      → logons (acquired c.key_id ∷ (read_body env r c env.read ++ released c.key_id ∷ [])) ≡ 0
  unfolding logons
  held-quiet c = omega (
    arith,
    logons-append (read_body env r c env.read) (released c.key_id ∷ []),
    read_body-quiet c env.read,
  )

  admit-quiet : (c : Caller) → logons (admit env r c) ≡ 0
  unfolding admit
  admit-quiet c = if_both Quiet (env.ceiling c.key_id) _ _ (held-quiet c) (refusal-quiet _ _ _ _)

module _ (env : Env) (r : Request) (held : Bool) where
  -- A request records a logon exactly if it takes the latch.
  authenticated_balance :
      (c : Option Caller)
      → logons (authenticated env (latched r held) c) + bit held
        ≡ bit (latch_for env (latched r held) c held)
  unfolding logons
  authenticated_balance none = omega arith
  authenticated_balance (some c) = by_latch held (admit-quiet env (latched r held) c)
    where
      by_latch :
          (b : Bool)
          → logons (admit env (latched r held) c) ≡ 0
          → logons (
                emit_at_latch env (latched r held) (some b) c.key_id
                ++ admit env (latched r held) c)
              + bit b
            ≡ bit (latch_for env (latched r held) (some c) b)
      by_latch true q = omega (arith, q)
      by_latch false q = omega (arith, q)

  abbrev Balanced : List Effect → Option Caller → Type 0
  Balanced es c = logons es + bit held ≡ bit (latch_for env (latched r held) c held)

  on_both :
      (b : Bool) (x y : List Effect) (c d : Option Caller)
      → Balanced x c
      → Balanced y d
      → Balanced (if b then x else y) (if b then c else d)
  on_both true x y c d hx hy = hx
  on_both false x y c d hx hy = hy

  refused_balance : (x : Response) → Balanced (responded x ∷ []) none
  unfolding logons
  refused_balance x = omega arith

  balance : Balanced (serve_http env (latched r held)) (caller_of env (latched r held))
  unfolding serve_http
  balance = on_both (not r.is_post) _ _ none _ (refused_balance _) (
      on_both
        (not (is_empty r.protocol_version)
          && not (str_eq r.protocol_version pinned_protocol_version))
        _ _ none _ (refused_balance _)
        (on_both (not (is_allowed_origin env.allowed_origins r.origin)) _ _ none _
          (refused_balance _)
          (authenticated_balance (env.authenticate (bearer_from_header r.authorization)))))

-- Over any requests of one connection, each of any caller and with any answers of the other
-- components: the success logons that reached the trail, and one if the latch was held before,
-- are one if the latch is held at the end, and none otherwise.
pub logons_latched :
    (held : Bool) (requests : List (Env × Request))
    → logons (serve_connection held requests).0 + bit held ≡ bit (serve_connection held requests).1
unfolding serve_connection logons
logons_latched held [] = omega arith
logons_latched held ((env, r) ∷ rest) =
    let (es, held') = serve_one env r held in
    omega (
      arith,
      balance env r held,
      logons-append es (serve_connection held' rest).0,
      logons_latched held' rest,
    )
