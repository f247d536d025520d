-- ===== src/Ingress/Handler/Single.antt =====
-- internal/ingress/handler.go: each request gets one response, and gives back what it takes.
use ocu_mcp_gateway.Base.{
  if_both, ℕ, suc, ◌≡◌, refl, ap, Bool, true, false, not, ◌&&◌, List, [], ◌∷◌, ◌++◌, Option, none,
  some, Str, codes, Result, ok, err, arith, is_empty, str_eq,
}
use ocu_mcp_gateway.Auth.{Caller}
use ocu_mcp_gateway.Authz.Policy.{Denial, decide}
use ocu_mcp_gateway.Profile.{Deny, call_tool_request}
use ocu_mcp_gateway.Forward.Calls.{SessionRequest, SessionResponse}
use ocu_mcp_gateway.Ingress.Response.{Response, ReadError}
use ocu_mcp_gateway.Ingress.Readers.{
  method_from, tool_name_from, tool_arguments_from, tool_call_from,
}
use ocu_mcp_gateway.Ingress.Exchange.{
  Env, Request, Effect, logged, acquired, released, entered, left, forwarded, recorded, responded,
  is_allowed_origin, pinned_protocol_version, bearer_from_header,
}
use ocu_mcp_gateway.Ingress.Handler.{
  record_refusal, acknowledge, forward_answered, serve_turn, serialize, decided, authorize,
  validated, dispatch, enveloped, read_body, admit, authenticated, serve_http, session_request,
  emit_at_latch, is_allowed_tool, is_notification,
}

-- How many responses, and how many slots and turns that are taken and not given back: a count of
-- what is taken, and one of what is given back.
pub record Tally : Type 0 where
  pub responses : ℕ
  pub slots_taken : ℕ
  pub slots_given : ℕ
  pub turns_taken : ℕ
  pub turns_given : ℕ

abbrev pub count : Effect → Tally → Tally
count (logged e b) t = t
count (acquired k) t = record t { slots_taken = suc t.slots_taken }
count (released k) t = record t { slots_given = suc t.slots_given }
count (entered k n) t = record t { turns_taken = suc t.turns_taken }
count (left k) t = record t { turns_given = suc t.turns_given }
count (forwarded q) t = t
count (recorded e b) t = t
count (responded r) t = record t { responses = suc t.responses }

unfoldable pub tally : List Effect → Tally
tally [] = record {
  responses = 0;
  slots_taken = 0;
  slots_given = 0;
  turns_taken = 0;
  turns_given = 0;
}
tally (e ∷ es) = count e (tally es)

-- One response, and as many slots and turns given back as taken.
pub record IsSettled (es : List Effect) : Type 0 where
  pub single : (tally es).responses ≡ 1
  pub slots : (tally es).slots_taken ≡ (tally es).slots_given
  pub turns : (tally es).turns_taken ≡ (tally es).turns_given

module _ (k : Str) where
  abbrev with_slot : Tally → Tally
  with_slot t = record t { slots_given = suc t.slots_given }

  tally-released : (es : List Effect) → tally (es ++ released k ∷ []) ≡ with_slot (tally es)
  unfolding tally
  tally-released [] = refl
  tally-released (logged e b ∷ es) = tally-released es
  tally-released (acquired j ∷ es) = ap (count (acquired j)) (tally-released es)
  tally-released (released j ∷ es) = ap (count (released j)) (tally-released es)
  tally-released (entered j n ∷ es) = ap (count (entered j n)) (tally-released es)
  tally-released (left j ∷ es) = ap (count (left j)) (tally-released es)
  tally-released (forwarded q ∷ es) = tally-released es
  tally-released (recorded e b ∷ es) = tally-released es
  tally-released (responded r ∷ es) = ap (count (responded r)) (tally-released es)

  abbrev with_turn : Tally → Tally
  with_turn t = record t { turns_given = suc t.turns_given }

  tally-left : (es : List Effect) → tally (es ++ left k ∷ []) ≡ with_turn (tally es)
  unfolding tally
  tally-left [] = refl
  tally-left (logged e b ∷ es) = tally-left es
  tally-left (acquired j ∷ es) = ap (count (acquired j)) (tally-left es)
  tally-left (released j ∷ es) = ap (count (released j)) (tally-left es)
  tally-left (entered j n ∷ es) = ap (count (entered j n)) (tally-left es)
  tally-left (left j ∷ es) = ap (count (left j)) (tally-left es)
  tally-left (forwarded q ∷ es) = tally-left es
  tally-left (recorded e b ∷ es) = tally-left es
  tally-left (responded r ∷ es) = ap (count (responded r)) (tally-left es)

answer-IsSettled : (r : Response) → IsSettled (responded r ∷ [])
unfolding tally
answer-IsSettled r = record { single = refl; slots = refl; turns = refl }

slot-IsSettled :
    (k : Str) (es : List Effect) → IsSettled es → IsSettled (acquired k ∷ (es ++ released k ∷ []))
unfolding tally
slot-IsSettled k es s = record {
  single = ground (arith, tally-released k es, s.single);
  slots = ground (arith, tally-released k es, s.slots);
  turns = ground (arith, tally-released k es, s.turns);
}

turn-IsSettled :
    (k n : Str) (q : SessionRequest) (es : List Effect)
    → IsSettled es
    → IsSettled (entered k n ∷ forwarded q ∷ (es ++ left k ∷ []))
unfolding tally
turn-IsSettled k n q es s = record {
  single = ground (arith, tally-left k es, s.single);
  slots = ground (arith, tally-left k es, s.slots);
  turns = ground (arith, tally-left k es, s.turns);
}

module _ (env : Env) (r : Request) where
  record_refusal-IsSettled :
      (id : Option Str) (actor resource : Str) (refusal : Response)
      → IsSettled (record_refusal env r id actor resource refusal)
  unfolding record_refusal tally
  record_refusal-IsSettled id actor resource refusal = record {
    single = refl;
    slots = refl;
    turns = refl;
  }

  forward_answered-IsSettled :
      (c : Caller) (raw : Str) (q : SessionRequest) (o : Option SessionResponse)
      → IsSettled (forward_answered env r c raw q o)
  unfolding acknowledge tally
  forward_answered-IsSettled c raw q none = record_refusal-IsSettled _ _ _ _
  forward_answered-IsSettled c raw q (some resp) = record {
    single = refl;
    slots = refl;
    turns = refl;
  }

  serialize-IsSettled : (c : Caller) (raw : Str) → IsSettled (serialize env r c raw)
  unfolding serialize serve_turn
  serialize-IsSettled c raw =
      if_both IsSettled (env.serializer c.tenant (tool_call_from env.decoder env.scripts raw).name)
        _ _
        (turn-IsSettled _ _ _ _ (
          forward_answered-IsSettled c raw (session_request env r c raw)
            (env.forward (session_request env r c raw))))
        (answer-IsSettled _)

  decided-IsSettled :
      (c : Caller) (raw : Str) (d : Result Denial (Unit {0})) → IsSettled (decided env r c raw d)
  decided-IsSettled c raw (ok u) = serialize-IsSettled c raw
  decided-IsSettled c raw (err e) = record_refusal-IsSettled _ _ _ _

  validated-IsSettled :
      (c : Caller) (raw : Str) (d : Result Deny (Unit {0})) → IsSettled (validated env r c raw d)
  unfolding authorize
  validated-IsSettled c raw (err d) = answer-IsSettled _
  validated-IsSettled c raw (ok u) =
      if_both IsSettled (is_allowed_tool env r (tool_name_from env.decoder raw)) _ _
        (decided-IsSettled c raw (
          decide env.policy c.key_id (tool_name_from env.decoder raw)
            (tool_arguments_from env.decoder raw)))
        (answer-IsSettled _)

  enveloped-IsSettled :
      (c : Caller) (raw : Str) (d : Result Deny (Unit {0})) → IsSettled (enveloped env r c raw d)
  unfolding dispatch
  enveloped-IsSettled c raw (err d) = answer-IsSettled _
  enveloped-IsSettled c raw (ok u) =
      if_both IsSettled (is_notification env r raw) _ _ (answer-IsSettled _) (
        if_both IsSettled
          (is_empty r.protocol_version
            && not (str_eq (method_from env.decoder raw) (codes "initialize")))
          _ _ (answer-IsSettled _)
          (if_both IsSettled (str_eq (method_from env.decoder raw) (codes "initialize")) _ _
            (answer-IsSettled _)
            (if_both IsSettled (str_eq (method_from env.decoder raw) (codes "tools/list")) _ _
              (answer-IsSettled _)
              (validated-IsSettled c raw (env.validate call_tool_request raw)))))

  read_body-IsSettled : (c : Caller) (b : Result ReadError Str) → IsSettled (read_body env r c b)
  read_body-IsSettled c (err e) = answer-IsSettled _
  read_body-IsSettled c (ok raw) = enveloped-IsSettled c raw (env.envelope raw)

  admit-IsSettled : (c : Caller) → IsSettled (admit env r c)
  unfolding admit
  admit-IsSettled c =
      if_both IsSettled (env.ceiling c.key_id) _ _
        (slot-IsSettled _ _ (read_body-IsSettled c env.read)) (record_refusal-IsSettled _ _ _ _)

  logged_once-IsSettled :
      (l : Option Bool) (actor : Str) (es : List Effect)
      → IsSettled es
      → IsSettled (emit_at_latch env r l actor ++ es)
  unfolding tally
  logged_once-IsSettled none actor es s = record {
    single = s.single;
    slots = s.slots;
    turns = s.turns;
  }
  logged_once-IsSettled (some true) actor es s = s
  logged_once-IsSettled (some false) actor es s = record {
    single = s.single;
    slots = s.slots;
    turns = s.turns;
  }

  authenticated-IsSettled : (c : Option Caller) → IsSettled (authenticated env r c)
  unfolding tally
  authenticated-IsSettled none = record { single = refl; slots = refl; turns = refl }
  authenticated-IsSettled (some c) = logged_once-IsSettled r.latch c.key_id _ (admit-IsSettled c)

  -- Whatever the other components answer, a request gets exactly one response, and the handler gives
  -- back as many slots of the ceiling and turns of the serializer as it took.
  pub serve_http-IsSettled : IsSettled (serve_http env r)
  unfolding serve_http
  serve_http-IsSettled = if_both IsSettled (not r.is_post) _ _ (answer-IsSettled _) (
      if_both IsSettled
        (not (is_empty r.protocol_version)
          && not (str_eq r.protocol_version pinned_protocol_version))
        _ _ (answer-IsSettled _)
        (if_both IsSettled (not (is_allowed_origin env.allowed_origins r.origin)) _ _
          (answer-IsSettled _)
          (authenticated-IsSettled (env.authenticate (bearer_from_header r.authorization)))))
