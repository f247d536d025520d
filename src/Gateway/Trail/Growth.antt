-- ===== src/Gateway/Trail/Growth.antt =====
-- internal/audit/emitter.go and internal/audit/filesink.go together: what an emit adds to the file.
use mathlib.Core.List.{append_assoc, append-nil}
use ocu_mcp_gateway.Base.{
  str_eq_iff, ◌≡◌, refl, sym, ap, ◌∙◌, Bool, true, false, ◌||◌, ◌&&◌, [], ◌++◌, Option, some, Str,
  Json, Result, ok, err, arith, Bool-cases, inl, inr,
}
use ocu_mcp_gateway.Audit
use ocu_mcp_gateway.Audit.{
  is_success, failure, unknown, unlisted, Envelope, AuthnEnvelope, Invalid, success, validate,
  to_api_activity, to_authentication,
}
use ocu_mcp_gateway.Audit.Emitter.{Error, emit, emit_authn, checked, converted, marshalled, taken}
use ocu_mcp_gateway.Audit.FileSink.{Outcome, line_of}
use ocu_mcp_gateway.Audit.FileSink.Durability.{Holds}
use ocu_mcp_gateway.Ingress.Handler.Acknowledged.{is_success_of}
use ocu_mcp_gateway.Gateway.Trail.{file_sink, Trail, is_ok, agree}
use ocu_mcp_gateway.Gateway.Trail.Emission.{
  file_of, Emitted, marshalled-IsEmitted, checked-IsEmitted,
}

module _ (marshal : Json → Option Str) where
  module _ (correlation actor : Str) where
    -- The line of the record of a success of `actor` under the correlation, somewhere in a text.
    pub record Recorded (text : Str) : Type 0 where
      pub envelope : Envelope
      pub succeeded : envelope.outcome ≡ success
      pub traced : envelope.trace_id ≡ correlation
      pub acted : envelope.actor_id ≡ actor
      pub payload : Str
      pub encoded : marshal (to_api_activity envelope) ≡ some payload
      pub before : Str
      pub after : Str
      pub split : text ≡ before ++ (line_of payload ++ after)

    -- What a run of the trail has added to a file that held `text`.
    pub record Grown (text : Str) (t : Trail marshal) (success_recorded : Bool) : Type 0 where
      pub more : Str
      pub kept : Holds (text ++ more) (file_of marshal t)
      pub found : success_recorded ≡ true → Recorded more

    success_of : (e : Envelope) → is_success e.outcome ≡ true → e.outcome ≡ success
    success_of e h = by_outcome_of e.outcome h
      where
        by_outcome_of : (o : Audit.Outcome) → is_success o ≡ true → o ≡ success
        by_outcome_of success h = refl
        by_outcome_of failure h = absurd (cc)
        by_outcome_of unknown h = absurd (cc)
        by_outcome_of (unlisted s) h = absurd (cc)

    pub unchanged :
        (text : Str) (t : Trail marshal) → Holds text (file_of marshal t) → Grown text t false
    unchanged text t h = record {
      more = [];
      kept = rw (append-nil text) h;
      found = λ e. absurd (cc);
    }

    recorded-Grown :
        (text : Str) (x : Trail marshal × Result (Error Outcome) (Unit {0})) (e : Envelope)
        (b : Bool)
        → Emitted marshal text x (to_api_activity e)
        → agree (is_ok x.1) b ≡ true
        → Grown text x.0 (b && is_success_of correlation actor e)
    unfolding Emitted
    recorded-Grown text (t, ok u) e false h a = absurd (cc)
    recorded-Grown text (t, ok u) e true (payload, m, h) a = record {
      more = line_of payload;
      kept = h;
      found = λ s. record {
        envelope = e;
        succeeded = success_of e (ground (arith, s));
        traced = (str_eq_iff e.trace_id correlation).0 (ground (arith, s));
        acted = (str_eq_iff e.actor_id actor).0 (ground (arith, s));
        payload = payload;
        encoded = m;
        before = [];
        after = [];
        split = sym (append-nil (line_of payload));
      };
    }
    recorded-Grown text (t, err i) e true h a = absurd (cc)
    recorded-Grown text (t, err i) e false h a = unchanged text t h

    logged-Grown :
        (text : Str) (x : Trail marshal × Result (Error Outcome) (Unit {0})) (object : Json)
        → Emitted marshal text x object
        → Grown text x.0 false
    unfolding Emitted
    logged-Grown text (t, ok u) object (payload, m, h) = record {
      more = line_of payload;
      kept = h;
      found = λ e. absurd (cc);
    }
    logged-Grown text (t, err i) object h = unchanged text t h

    converted-Grown :
        (text : Str) (t : Trail marshal) (v : Result Invalid Json)
        → Holds text (file_of marshal t)
        → Grown text (converted (file_sink marshal) t v).0 false
    converted-Grown text t (ok object) h =
        logged-Grown text (marshalled (file_sink marshal) t (marshal object)) object
          (marshalled-IsEmitted marshal text object t (marshal object) refl h)
    converted-Grown text t (err i) h = unchanged text t h

    pub emit-Grown :
        (text : Str) (t : Trail marshal) (e : Envelope) (b : Bool)
        → Holds text (file_of marshal t)
        → agree (is_ok (emit (file_sink marshal) t e).1) b ≡ true
        → Grown text (emit (file_sink marshal) t e).0 (b && is_success_of correlation actor e)
    unfolding emit
    emit-Grown text t e b h a =
        let numbered : Envelope = record e { sequence = t.seq } in
        recorded-Grown text
          (checked (file_sink marshal) (taken (file_sink marshal) t) (to_api_activity numbered)
            (validate numbered))
          numbered b
          (checked-IsEmitted marshal text (to_api_activity numbered) (taken (file_sink marshal) t)
            (validate numbered) h)
          a

    pub emit_authn-Grown :
        (text : Str) (t : Trail marshal) (e : AuthnEnvelope)
        → Holds text (file_of marshal t)
        → Grown text (emit_authn (file_sink marshal) t e).0 false
    unfolding emit_authn
    emit_authn-Grown text t e h =
        converted-Grown text (taken (file_sink marshal) t)
          (to_authentication (record e { sequence = t.seq })) h

    longer : (xs ys : Str) → Recorded xs → Recorded (xs ++ ys)
    longer xs ys r = record {
      envelope = r.envelope;
      succeeded = r.succeeded;
      traced = r.traced;
      acted = r.acted;
      payload = r.payload;
      encoded = r.encoded;
      before = r.before;
      after = r.after ++ ys;
      split =
          ap (λ w. w ++ ys) r.split
          ∙ append_assoc r.before (line_of r.payload ++ r.after) ys
          ∙ ap (λ w. r.before ++ w) (append_assoc (line_of r.payload) r.after ys);
    }

    later : (xs ys : Str) → Recorded ys → Recorded (xs ++ ys)
    later xs ys r = record {
      envelope = r.envelope;
      succeeded = r.succeeded;
      traced = r.traced;
      acted = r.acted;
      payload = r.payload;
      encoded = r.encoded;
      before = xs ++ r.before;
      after = r.after;
      split =
          ap (λ w. xs ++ w) r.split ∙ sym (append_assoc xs r.before (line_of r.payload ++ r.after));
    }

    pub then-Grown :
        (text : Str) (t t' : Trail marshal) (b c : Bool) (g : Grown text t b)
        → Grown (text ++ g.more) t' c
        → Grown text t' (b || c)
    then-Grown text t t' b c g k = record {
      more = g.more ++ k.more;
      kept = rw (← append_assoc text g.more k.more) k.kept;
      found = λ e. elim (Bool-cases b) [
        | inl first ↦ longer g.more k.more (g.found first)
        | inr other ↦ later g.more k.more (k.found (ground (arith, e, other)))
      ];
    }
