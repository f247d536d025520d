-- ===== src/Audit/FileSink.antt =====
-- internal/audit/filesink.go: the append-only audit file. What the operating system does to an
-- open, a write and an fsync is given with each call; `content` is what the file holds, and `durable`
-- how many bytes of it an fsync has covered.
pub mod Durability
use ocu_mcp_gateway.Base.{
  ℕ, zero, suc, Bool, true, false, List, [], ◌∷◌, ◌++◌, if◌then◌else◌, ◌==◌, not, Str, length, take,
  is_empty, Option, none, some, Result, ok, err,
}

pub record FileSink : Type 0 where
  pub content : Str
  pub durable : ℕ
  pub closed : Bool

-- How one call of Publish fares outside the sink: a context that is over, the bytes that a
-- write appends with the error that it may return, and the error of the fsync.
pub record Fate : Type 0 where
  pub context_over : Bool
  pub written : ℕ
  pub write_fails : Bool
  pub sync_fails : Bool

pub data Outcome : Type 0 where
  published context_error sink_closed write_error short_write sync_error : Outcome

abbrev pub newline : ℕ
newline = 10

abbrev pub line_of : Str → Str
line_of payload = payload ++ newline ∷ []

-- The file after a write of a line.
abbrev pub written_to : FileSink → Str → Fate → FileSink
written_to s line f = record s { content = s.content ++ take f.written line }

abbrev pub close_now : FileSink → FileSink
close_now s = record s { closed = true }

unfoldable pub publish : FileSink → Str → Fate → FileSink × Outcome
publish s payload f =
    if f.context_over
    then (s, context_error)
    else if s.closed
    then (s, sink_closed)
    else (let line = line_of payload in
        let w = written_to s line f in
        if f.write_fails
        then (close_now w, write_error)
        else if not (length (take f.written line) == length line)
        then (close_now w, short_write)
        else if f.sync_fails
        then (close_now w, sync_error)
        else (record w { durable = length w.content }, published))

unfoldable pub close : FileSink → FileSink
close s = if s.closed then s else close_now s

-- The file that os.OpenFile opens for appending, or makes: what it holds, how much of that is on
-- stable storage, and whether its directory can be opened and synced.
pub record Opened : Type 0 where
  pub content : Str
  pub durable : ℕ
  pub directory_syncs : Bool

pub data OpenError : Type 0 where
  empty_path not_opened directory_not_synced : OpenError

abbrev pub synced : Option Opened → Result OpenError FileSink
synced none = err not_opened
synced (some f) =
    if f.directory_syncs
    then ok (record { content = f.content; durable = f.durable; closed = false })
    else err directory_not_synced

-- The directory's fsync makes the file's entry durable, not its bytes.
unfoldable pub open_file_sink : Str → Option Opened → Result OpenError FileSink
open_file_sink path found = if is_empty path then err empty_path else synced found

pub data Event : Type 0 where
  publishes : Str → Fate → Event
  closes : Event

unfoldable pub step : FileSink → Event → FileSink
step s (publishes payload f) = (publish s payload f).0
step s closes = close s

unfoldable pub run : FileSink → List Event → FileSink
run s [] = s
run s (e ∷ es) = run (step s e) es
