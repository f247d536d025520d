-- ===== src/Audit/Emitter.antt =====
-- internal/audit/emitter.go and EmitAuthn of internal/audit/authn.go. `json.Marshal` is a
-- parameter, and so is the sink: a state and its Publish.
use ocu_mcp_gateway.Base.{ℕ, ◌+◌, ◌%◌, ◌^◌, Option, none, some, Str, codes, Result, ok, err, Json}
use ocu_mcp_gateway.Audit.{
  Envelope, AuthnEnvelope, Invalid, validate, to_api_activity, to_authentication,
}

pub data Error (E : Type 0) : Type 0 where
  invalid : Invalid → Error E
  not_marshalled : Error E
  write_failed : E → Error E

-- Publish appends a payload to a channel, or fails, and leaves the sink in a new state.
pub record Sink : Type 1 where
  pub State : Type 0
  pub Failure : Type 0
  pub publish : State → Str → Str → State × Option Failure
  pub marshal : Json → Option Str

abbrev pub channel_address : Str
channel_address = codes "audit.ingest.mcp-gateway"

abbrev pub word : ℕ
word = 2 ^ 64

module _ (k : Sink) where
  open k use {State, Failure, publish, marshal}

  pub record Emitter : Type 0 where
    pub sink : State
    pub seq : ℕ

  abbrev pub published : ℕ → State × Option Failure → Emitter × Result (Error Failure) (Unit {0})
  published seq (s, none) = (record { sink = s; seq = seq }, ok tt)
  published seq (s, some e) = (record { sink = s; seq = seq }, err (write_failed e))

  abbrev pub marshalled : Emitter → Option Str → Emitter × Result (Error Failure) (Unit {0})
  marshalled e none = (e, err not_marshalled)
  marshalled e (some payload) = published e.seq (publish e.sink channel_address payload)

  abbrev pub checked :
      Emitter → Json → Result Invalid (Unit {0}) → Emitter × Result (Error Failure) (Unit {0})
  checked e object (err i) = (e, err (invalid i))
  checked e object (ok u) = marshalled e (marshal object)

  abbrev pub converted : Emitter → Result Invalid Json → Emitter × Result (Error Failure) (Unit {0})
  converted e (err i) = (e, err (invalid i))
  converted e (ok object) = marshalled e (marshal object)

  -- `e.seq.Add(1) - 1` hands out the old value.
  abbrev pub taken : Emitter → Emitter
  taken e = record e { seq = (e.seq + 1) % word }

  unfoldable pub emit : Emitter → Envelope → Emitter × Result (Error Failure) (Unit {0})
  emit e env =
      let numbered : Envelope = record env { sequence = e.seq } in
      checked (taken e) (to_api_activity numbered) (validate numbered)

  unfoldable pub emit_authn : Emitter → AuthnEnvelope → Emitter × Result (Error Failure) (Unit {0})
  emit_authn e env =
      let numbered : AuthnEnvelope = record env { sequence = e.seq } in
      converted (taken e) (to_authentication numbered)
