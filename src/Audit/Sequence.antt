-- ===== src/Audit/Sequence.antt =====
-- internal/audit/emitter.go: when an emission succeeds, and that each attempt counts.
use ocu_mcp_gateway.Base.{
  ℕ, ◌+◌, ◌%◌, ◌≤◌, ◌<◌, ◌≡◌, ◌↔◌, refl, Bool, true, false, [], ◌∷◌, Option, none, some, Str,
  Result, ok, err, arith, length, Json, refuse_if, ◌>>◌,
}
use ocu_mcp_gateway.Audit.{
  Envelope, AuthnEnvelope, Invalid, is_valid, validate, to_api_activity, to_authentication,
  is_out_of_bounds,
}
use ocu_mcp_gateway.Audit.Emitter.{
  Sink, Emitter, channel_address, word, checked, marshalled, published, taken, converted, emit,
  emit_authn,
}

abbrev pub WithinBytes : ℕ → Str → Type 0
WithinBytes most s = (0 < length s) × (length s ≤ most)

-- The bounds of Envelope.Validate: lengths in bytes, and no field is empty.
pub record Conforms (e : Envelope) : Type 0 where
  pub trace_id : WithinBytes 128 e.trace_id
  pub session_id : WithinBytes 128 e.session_id
  pub actor_id : WithinBytes 256 e.actor_id
  pub resource : WithinBytes 1024 e.resource
  pub action : WithinBytes 128 e.action
  pub outcome : is_valid e.outcome ≡ true

out_of_bounds_iff : (most : ℕ) (s : Str) → (is_out_of_bounds most s ≡ false) ↔ WithinBytes most s
out_of_bounds_iff most [] = ((λ e. absurd (cc)), (λ h. absurd (omega (arith, h.0))))
out_of_bounds_iff most (c ∷ s) = ground arith

guard_iff :
    (b : Bool) (i : Invalid) (r : Result Invalid (Unit {0}))
    → ((refuse_if b i >> r) ≡ ok tt) ↔ ((b ≡ false) × (r ≡ ok tt))
guard_iff true i r = ground arith
guard_iff false i r = ground arith

validate_iff : (e : Envelope) → (validate e ≡ ok tt) ↔ Conforms e
unfolding validate
validate_iff e = (
  (λ h.
      let (a, h1) = (guard_iff _ _ _).0 h in
      let (b, h2) = (guard_iff _ _ _).0 h1 in
      let (c, h3) = (guard_iff _ _ _).0 h2 in
      let (d, h4) = (guard_iff _ _ _).0 h3 in
      let (f, h5) = (guard_iff _ _ _).0 h4 in
      record {
        trace_id = (out_of_bounds_iff 128 e.trace_id).0 a;
        session_id = (out_of_bounds_iff 128 e.session_id).0 b;
        actor_id = (out_of_bounds_iff 256 e.actor_id).0 c;
        resource = (out_of_bounds_iff 1024 e.resource).0 d;
        action = (out_of_bounds_iff 128 e.action).0 f;
        outcome = ground arith;
      }),
  (λ c. rw (
    (out_of_bounds_iff 128 e.trace_id).1 c.trace_id,
    (out_of_bounds_iff 128 e.session_id).1 c.session_id,
    (out_of_bounds_iff 256 e.actor_id).1 c.actor_id,
    (out_of_bounds_iff 1024 e.resource).1 c.resource,
    (out_of_bounds_iff 128 e.action).1 c.action,
    c.outcome,
  )),
)

-- What a request does with the emitter: a tool-call record or a logon record.
pub data Attempt : Type 0 where
  activity : Envelope → Attempt
  logon : AuthnEnvelope → Attempt

module _ (k : Sink) where
  open k use {State, Failure, publish, marshal}

  published_iff :
      (q : ℕ) (r : State × Option Failure) (s : State)
      → (published k q r ≡ (record { sink = s; seq = q }, ok tt)) ↔ (r ≡ (s, none))
  published_iff q (s', none) s = ground arith
  published_iff q (s', some f) s = ground arith

  marshalled_iff :
      (e : Emitter k) (o : Option Str) (s : State)
      → (marshalled k e o ≡ (record e { sink = s }, ok tt)) ↔ (
          (payload : Str) × (o ≡ some payload)
          × (publish e.sink channel_address payload ≡ (s, none)))
  marshalled_iff e none s = ((λ h. absurd (cc)), (λ h. absurd (cc (h.1))))
  marshalled_iff e (some payload) s = (
    (λ h. (payload, refl, (published_iff e.seq (publish e.sink channel_address payload) s).0 h)),
    (λ h.
        (published_iff e.seq (publish e.sink channel_address payload) s).1
          (ground (arith, h.1, h.2))),
  )

  checked_iff :
      (e : Emitter k) (object : Json) (r : Result Invalid (Unit {0})) (s : State)
      → (checked k e object r ≡ (record e { sink = s }, ok tt)) ↔ (
          (r ≡ ok tt)
          × ((payload : Str) × (marshal object ≡ some payload)
              × (publish e.sink channel_address payload ≡ (s, none))))
  checked_iff e object (err i) s = ((λ h. absurd (cc)), (λ h. absurd (cc (h.0))))
  checked_iff e object (ok u) s = (
    (λ h. (refl, (marshalled_iff e (marshal object) s).0 h)),
    (λ h. (marshalled_iff e (marshal object) s).1 h.1),
  )

  -- An emission succeeds exactly if each field of the envelope is nonempty and within its limit in
  -- bytes, the outcome is one of the three, and its object,
  -- numbered with the emitter's counter, is marshalled and published; the sink is left as the
  -- publication leaves it, and the counter one further.
  pub emit_iff :
      (e : Emitter k) (env : Envelope) (s : State)
      → (emit k e env ≡ (record { sink = s; seq = (e.seq + 1) % word }, ok tt)) ↔ (
          Conforms env
          × ((payload : Str) × (marshal (to_api_activity (record env { sequence = e.seq }))
                ≡ some payload)
              × (publish e.sink channel_address payload ≡ (s, none))))
  unfolding emit
  emit_iff e env s =
      let numbered : Envelope = record env { sequence = e.seq } in
      let (to, from) = checked_iff (taken k e) (to_api_activity numbered) (validate numbered) s in
      (
        (λ h.
            let (v, p) = to h in
            let c = (validate_iff numbered).0 v in
            (
              record {
                trace_id = c.trace_id;
                session_id = c.session_id;
                actor_id = c.actor_id;
                resource = c.resource;
                action = c.action;
                outcome = c.outcome;
              },
              p,
            )),
        (λ h. from (
          (validate_iff numbered).1 (record {
            trace_id = h.0.trace_id;
            session_id = h.0.session_id;
            actor_id = h.0.actor_id;
            resource = h.0.resource;
            action = h.0.action;
            outcome = h.0.outcome;
          }),
          h.1,
        )),
      )

  abbrev pub after : Emitter k → Attempt → Emitter k
  after e (activity env) = (emit k e env).0
  after e (logon env) = (emit_authn k e env).0

  seq-marshalled : (e : Emitter k) (o : Option Str) → (marshalled k e o).0.seq ≡ e.seq
  seq-marshalled e none = refl
  seq-marshalled e (some payload) = go (publish e.sink channel_address payload)
    where
      go : (r : State × Option Failure) → (published k e.seq r).0.seq ≡ e.seq
      go (s, none) = refl
      go (s, some f) = refl

  pub seq-after : (e : Emitter k) (a : Attempt) → (after e a).seq ≡ (e.seq + 1) % word
  unfolding emit emit_authn
  seq-after e (activity env) = go (validate (record env { sequence = e.seq }))
    where
      object : Json
      object = to_api_activity (record env { sequence = e.seq })

      go :
          (r : Result Invalid (Unit {0}))
          → (checked k (taken k e) object r).0.seq ≡ (e.seq + 1) % word
      go (err i) = refl
      go (ok u) = seq-marshalled (taken k e) (marshal object)
  seq-after e (logon env) = go (to_authentication (record env { sequence = e.seq }))
    where
      go : (r : Result Invalid Json) → (converted k (taken k e) r).0.seq ≡ (e.seq + 1) % word
      go (err i) = refl
      go (ok object) = seq-marshalled (taken k e) (marshal object)
