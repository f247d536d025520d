-- ===== src/Lib.antt =====
-- Models of the MCP gateway (ocu-mcp-gatewayd), and proofs about them. The gateway takes JSON-RPC
-- requests over HTTP, authenticates each by a key, checks it against a constraint profile and an
-- authorization policy, and forwards tool calls to Control under its own identity; what it did is
-- recorded in an audit trail before it is acknowledged.
--
-- The parts, and the files that model them:
-- - Options and Daemon: cmd/ocu-mcp-gatewayd/main.go, the flags, run, the guards and the composition
--   of serve up to the bound listener, and the refresh loop over what the loader returns at each
--   tick. The files, the parsers, the schemas and the network are a parameter (`Host`), and the
--   flags are given parsed.
-- - Gateway: the handler of a running daemon (`respond`), which authenticates with the key set
--   that the refresh loop has left, authorizes with the loaded policy and forwards with the built
--   forwarder, over a body that Profile validates; and in Gateway/Trail the handler's effects played
--   on the emitter over the file sink or the bus sink.
-- - Ingress/Exchange and Ingress/Handler: internal/ingress/handler.go, ServeHTTP, recordRefusal and
--   emitLogon, and internal/ingress/origin.go. The handling of one request is the list of what it
--   does in order (`Effect`), of an environment (`Env`) that holds what the other components answer
--   to it. The policy is not such an answer: the handler calls `decide` of Authz/Policy. Each stage
--   of ServeHTTP up to its next early return is a function, and a deferred release stands at the
--   end of the stage that took the slot.
-- - Ingress/Readers: methodFrom, toolNameFrom, toolArgumentsFrom and toolCallFrom of handler.go and
--   idFrom of handshake.go. What splits JSON text into the members of an object, in their order and
--   with duplicates, is a parameter (`Decoder`); which member encoding/json takes for a field, and
--   that it merges those of a map, is modelled.
-- - Ingress/Connection: the requests of one connection and the latch of its context, from
--   internal/ingress/server.go and emitLogonOnce of handler.go.
-- - Ingress/Server: internal/ingress/readiness.go and server.go, and the health check of
--   cmd/ocu-mcp-gatewayd/healthcheck.go. The loop and the client of net/http are arguments.
-- - Ingress/Response and Ingress/Body: internal/ingress/response.go and handshake.go, the status,
--   code, message and id of responses, and their JSON bodies.
-- - Ingress/ResolveOnly: internal/ingress/resolveonly.go, the parsing of a flag into a set of key
--   ids, and CompileResolveOnly, which binds these to a profile of the policy.
-- - Auth, with Auth/Hex, Auth/Resolve and Auth/Minting: internal/auth/skkey.go, the static key set.
--   SHA-256 is a parameter, and an instant is a number, 0 for the zero time.
-- - Profile, with Profile/Requests: internal/profile/base.go, profile.go and validator.go. The JSON
--   decoder and the compiled schemas are a parameter (`Decoding`).
-- - Authz/Policy, Authz/Paths and Authz/Load: internal/authz/decide.go and policy.go. path.Clean of
--   the standard library is modelled; the JSON decoder and schema of Load are parameters.
-- - Quota: internal/quota/ceiling.go, the limit of requests in flight for each caller.
-- - Serialize: internal/serialize/serialize.go, the turns of a session's tool calls. The gates stand
--   on a heap, so that a gate which left the map is still the one its calls hold. A call is
--   waiting, roused, holding or done, and the calls of any number of goroutines are events in any
--   order; the mutex makes each of them atomic. A call in `cond.Wait` stays there until the
--   broadcast of a release rouses it, and then looks at its gate again.
-- - Forward/Session: internal/forward/session.go, the create request and its admission checks.
-- - Forward/Calls: internal/forward/http.go, Forward, Destroy and postJSON, as the calls of Control
--   that they make and their outcome. The HTTP client, credential and JSON are a parameter
--   (`World`), whose answer to a call may depend on the calls before it.
-- - Forward/Dial: internal/forward/dial.go, credential.go and NewControlForwarderWithDial, the
--   material that the forwarder is built from. The files and the parsers of PEM are a parameter
--   (`Material`).
-- - Forward/Commands and Forward/Results: internal/forward/http.go, the reading of a shell command
--   and the tool result made of Control's reply. Base64 decoding and the printing of numbers are
--   parameters.
-- - Audit, with Audit/Emitter, Audit/Sequence, Audit/Stamps, Audit/FileSink and Audit/BusSink:
--   internal/audit, the records, their validation and their OCSF form, the emitter with its counter,
--   the file sink against every outcome of an open, a write and a sync, and the bus sink. How much
--   of a file that is opened again is on stable storage is given, as opening it syncs none of it.
-- - Boot: internal/boot/boot.go, the sequencer over any answers of the loader of key sets.
-- - Config/KeySet and Config/Provisioning: internal/config, the loaders of the key set and of the
--   provisioning policy. The files, the schema, JSON and time.Parse are parameters.
-- - Projection: internal/projection/projection.go, Project. The texts of the guest scripts and the
--   JSON decoder are arguments.
-- - Base: byte strings and their white space, lists, maps as association lists, results and the int
--   of Go.
--
-- How they interact: Daemon builds every part and Gateway puts them under the handler. The handler
-- asks the parts in the order of ServeHTTP; in Gateway its environment's `authenticate` is Auth over
-- the key set that Boot serves, `ceiling` the answer of Quota, `validate` that of Profile, `forward` that of
-- Forward/Calls, and `emit` agrees with Audit over a sink where a trail is replayed. `serializer` stands for the
-- answer of Serialize. Ingress/ResolveOnly makes the policy that `decide` reads.
--
-- A Go string is the list of its bytes, and a list's length is in bytes. A ticket of the serializer
-- and the sequence of the emitter are 64-bit words and wrap, `% 2 ^ 64`, and so does the sum of two
-- limits. No model runs on fuel: each
-- loop is a structural recursion over a list or a number.
--
-- Not modelled: package flag, signals and sockets, which are outside the repository's code; the
-- log lines and the counter of lost logons (internal/ingress/diag.go, LogonsDropped); the schema of
-- internal/keyset and the embedded files; the guest programs in internal/projection; and the text
-- that a JSON value is printed as. Identifiers that are random in the source are given by the
-- environment.
pub mod Audit
pub mod Auth
pub mod Authz
pub mod Base
pub mod Boot
pub mod Config
pub mod Daemon
pub mod Forward
pub mod Gateway
pub mod Ingress
pub mod Options
pub mod Profile
pub mod Projection
pub mod Quota
pub mod Serialize
