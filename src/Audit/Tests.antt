-- ===== src/Audit/Tests.antt =====
-- Runs of internal/audit, and the properties at concrete inputs.
use ocu_mcp_gateway.Base.{
  ◌+◌, ◌%◌, ◌≡◌, ◌≤◌, ◌↔◌, ◌⊎◌, true, refl, false, List, [], ◌∷◌, ◌++◌, none, some, Str, codes, ok,
  err, length, has_prefix,
}
use ocu_mcp_gateway.Audit.{
  Envelope, AuthnEnvelope, success, failure, validate, to_api_activity, validate_authn,
  key_material, contains,
}
use ocu_mcp_gateway.Audit.Emitter.{Sink, Emitter, word, emit, channel_address}
use ocu_mcp_gateway.Audit.Sequence.{Conforms, emit_iff, Attempt, activity, logon}
use ocu_mcp_gateway.Audit.Stamps.{recording}
use ocu_mcp_gateway.Audit.FileSink.{
  Fate, Event, publishes, publish, FileSink, Opened, directory_not_synced, open_file_sink, step,
  run,
}
use ocu_mcp_gateway.Audit.FileSink.Durability.{acknowledged, acknowledged_durable}

abbrev call : Envelope
call = record {
  trace_id = codes "t1";
  session_id = codes "s1";
  actor_id = codes "key";
  resource = codes "tools/call:view";
  action = codes "tool_call";
  outcome = success;
  sequence = 0;
}

abbrev failed_logon : AuthnEnvelope
failed_logon = record {
  trace_id = codes "t1";
  conn_id = codes "c1";
  actor_id = [];
  outcome = failure;
  failure_detail = codes "caller key not in the boot-loaded set";
  sequence = 0;
}

-- A sink that keeps the payloads, and a marshaller that writes one byte.
abbrev keeper : Sink
keeper = record {
  State = List Str;
  Failure = Unit {0};
  publish = λ s channel payload. (payload ∷ s, none);
  marshal = λ j. some (0 ∷ []);
}

abbrev idle : Emitter keeper
idle = record { sink = []; seq = 4 }

call_emitted : emit keeper idle call ≡ (record { sink = (0 ∷ []) ∷ []; seq = 5 }, ok tt)
unfolding emit validate codes
call_emitted = refl

key_in_detail :
    validate_authn (record failed_logon { failure_detail = codes "got sk-ocu-1" })
    ≡ err key_material
unfolding validate_authn codes contains has_prefix
key_in_detail = refl

emit_iff_example :
    (emit keeper idle call ≡ (record { sink = (0 ∷ []) ∷ []; seq = (4 + 1) % word }, ok tt)) ↔ (
      Conforms call
      × ((payload : Str) × (keeper.marshal (to_api_activity (record call { sequence = 4 }))
            ≡ some payload)
          × (keeper.publish [] channel_address payload ≡ ((0 ∷ []) ∷ [], none))))
emit_iff_example = emit_iff keeper idle call ((0 ∷ []) ∷ [])

abbrev recorder : Emitter (recording keeper)
recorder = record { sink = ([], []); seq = 4 }

-- The second of three records is invalid.
abbrev attempts : List Attempt
attempts = activity call ∷ activity (record call { action = [] }) ∷ logon failed_logon ∷ []

abbrev fine : Fate
fine = record { context_over = false; written = 9; write_fails = false; sync_fails = false }

abbrev short : Fate
short = record fine { written = 1 }

-- A record is kept, the next is torn, and the sink takes no more.
abbrev history : List Event
history =
    publishes (65 ∷ 66 ∷ []) fine ∷ publishes (67 ∷ 68 ∷ []) short ∷ publishes (69 ∷ []) fine ∷ []

-- A file of one byte that no fsync has covered yet.
abbrev found : Opened
found = record { content = 1 ∷ []; durable = 0; directory_syncs = true }

abbrev opened : FileSink
opened = record { content = 1 ∷ []; durable = 0; closed = false }

unsynced :
    open_file_sink (codes "/audit") (some (record found { directory_syncs = false }))
    ≡ err directory_not_synced
unfolding open_file_sink codes
unsynced = refl

history-run : (run opened history).content ≡ 1 ∷ 65 ∷ 66 ∷ 10 ∷ 67 ∷ []
unfolding run step publish
history-run = refl

acknowledged_durable_example :
    let s = run opened history in
    let text = found.content ++ acknowledged opened history in
    (tail : Str) × (s.content ≡ text ++ tail)
    × ((acknowledged opened history ≡ []) ⊎ (length text ≤ s.durable))
    × (s.closed ≡ false → tail ≡ [])
unfolding open_file_sink codes
acknowledged_durable_example = acknowledged_durable (codes "/audit") found opened history refl
