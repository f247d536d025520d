-- ===== src/Gateway/Trail.antt =====
-- internal/ingress/handler.go, internal/audit/emitter.go and internal/audit/filesink.go together: the
-- effects of the handler played on the emitter over a sink. The handler's answers agree with
-- the sink where each emit returned what the list of effects says.
pub mod Emission
pub mod Growth
pub mod Durable
pub mod Unaudited
use ocu_mcp_gateway.Base.{
  ℕ, Bool, true, false, List, [], ◌∷◌, Option, none, some, if◌then◌else◌, Str, Json, Result, ok,
  err,
}
use ocu_mcp_gateway.Audit.{Envelope, AuthnEnvelope}
use ocu_mcp_gateway.Audit.BusSink
use ocu_mcp_gateway.Audit.BusSink.{BusSink, BusError}
use ocu_mcp_gateway.Audit.Emitter.{Sink, Emitter, Error, emit, emit_authn}
use ocu_mcp_gateway.Audit.FileSink.{FileSink, Fate, Outcome, published, context_error, publish}
use ocu_mcp_gateway.Ingress.Exchange.{
  Effect, logged, acquired, released, entered, left, forwarded, recorded, responded,
}

abbrev pub failure_of : Outcome → Option Outcome
failure_of published = none
failure_of o = some o

-- The file sink, with how each of the next publishes fares.
abbrev pub publish_fated :
    FileSink × List Fate → Str → Str → (FileSink × List Fate) × Option Outcome
publish_fated (s, []) channel payload = ((s, []), some context_error)
publish_fated (s, f ∷ fs) channel payload =
    let (s', o) = publish s payload f in ((s', fs), failure_of o)

module _ (marshal : Json → Option Str) where
  abbrev pub file_sink : Sink
  file_sink = record {
    State = FileSink × List Fate;
    Failure = Outcome;
    publish = publish_fated;
    marshal = marshal;
  }

  abbrev pub Trail : Type 0
  Trail = Emitter file_sink

  -- The sink of a bus.
  abbrev pub bus_sink : Sink
  bus_sink = record {
    State = BusSink;
    Failure = BusError;
    publish = λ s channel payload. (s, some (BusSink.publish s channel payload));
    marshal = marshal;
  }

abbrev pub is_ok {ℓ κ} : {E : Type ℓ} {A : Type κ} → Result E A → Bool
is_ok (ok a) = true
is_ok (err e) = false

abbrev pub agree : Bool → Bool → Bool
agree true b = b
agree false true = false
agree false false = true

module _ (k : Sink) where
  -- The emitter after the effects, if each emit returned what they say.
  unfoldable pub replay : Emitter k → List Effect → Option (Emitter k)
  unfolding emit emit_authn
  replay t [] = some t
  replay t (logged e b ∷ es) =
      let (t', r) = emit_authn k t e in
      let rest = replay t' es in if agree (is_ok r) b then rest else none
  replay t (recorded e b ∷ es) =
      let (t', r) = emit k t e in
      let rest = replay t' es in if agree (is_ok r) b then rest else none
  replay t (acquired key ∷ es) = replay t es
  replay t (released key ∷ es) = replay t es
  replay t (entered key n ∷ es) = replay t es
  replay t (left key ∷ es) = replay t es
  replay t (forwarded q ∷ es) = replay t es
  replay t (responded x ∷ es) = replay t es
