-- ===== src/Gateway/Trail/Emission.antt =====
-- internal/audit/emitter.go and internal/audit/filesink.go together: what one emit leaves of the file.
use ocu_mcp_gateway.Base.{
  ℕ, ◌≡◌, refl, List, [], ◌∷◌, ◌++◌, Option, none, some, if◌then◌else◌, Str, Json, Result, ok, err,
}
use ocu_mcp_gateway.Audit.{Invalid}
use ocu_mcp_gateway.Audit.Emitter.{
  Sink, Emitter, Error, emit, emit_authn, checked, converted, marshalled, taken, channel_address,
}
use ocu_mcp_gateway.Audit.Emitter
use ocu_mcp_gateway.Audit.FileSink.{
  FileSink, Fate, Outcome, published, context_error, sink_closed, write_error, short_write,
  sync_error, line_of, publish,
}
use ocu_mcp_gateway.Audit.FileSink.Durability.{Holds, is_published, publish-Holds}
use ocu_mcp_gateway.Gateway.Trail.{publish_fated, failure_of, file_sink, Trail}

module _ (marshal : Json → Option Str) where
  abbrev pub file_of : Trail marshal → FileSink
  file_of t = t.sink.0

  -- What one emit leaves of a file that holds `text`: `text` with the line of `object` after it if
  -- the emit succeeded, and `text` otherwise.
  unfoldable pub Emitted : Str → Trail marshal × Result (Error Outcome) (Unit {0}) → Json → Type 0
  Emitted text (t, ok u) object =
      (payload : Str) × (marshal object ≡ some payload)
      × Holds (text ++ line_of payload) (file_of t)
  Emitted text (t, err e) object = Holds text (file_of t)

  module _ (text : Str) (object : Json) where
    by_outcome :
        (o : Outcome) (seq : ℕ) (s : FileSink) (fs : List Fate) (payload : Str)
        → marshal object ≡ some payload
        → Holds (if is_published o then text ++ line_of payload else text) s
        → Emitted text (Emitter.published (file_sink marshal) seq ((s, fs), failure_of o)) object
    unfolding Emitted
    by_outcome published seq s fs payload m h = (payload, m, h)
    by_outcome context_error seq s fs payload m h = h
    by_outcome sink_closed seq s fs payload m h = h
    by_outcome write_error seq s fs payload m h = h
    by_outcome short_write seq s fs payload m h = h
    by_outcome sync_error seq s fs payload m h = h

    sent :
        (seq : ℕ) (s : FileSink) (fs : List Fate) (payload : Str)
        → marshal object ≡ some payload
        → Holds text s
        → Emitted text
            (Emitter.published
              (file_sink marshal)
              seq
              (publish_fated (s, fs) channel_address payload))
            object
    unfolding Emitted
    sent seq s [] payload m h = h
    sent seq s (f ∷ fs) payload m h =
        let (s', o) = publish s payload f in
        by_outcome o seq s' fs payload m (publish-Holds text s payload f h)

    pub marshalled-IsEmitted :
        (t : Trail marshal) (o : Option Str)
        → marshal object ≡ o
        → Holds text (file_of t)
        → Emitted text (marshalled (file_sink marshal) t o) object
    unfolding Emitted
    marshalled-IsEmitted t none m h = h
    marshalled-IsEmitted t (some payload) m h = sent t.seq t.sink.0 t.sink.1 payload m h

    pub checked-IsEmitted :
        (t : Trail marshal) (v : Result Invalid (Unit {0}))
        → Holds text (file_of t)
        → Emitted text (checked (file_sink marshal) t object v) object
    unfolding Emitted
    checked-IsEmitted t (ok u) h = marshalled-IsEmitted t (marshal object) refl h
    checked-IsEmitted t (err i) h = h
