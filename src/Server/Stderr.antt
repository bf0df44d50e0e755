-- ===== src/Server/Stderr.antt =====
-- server/proxy.go, `senderStderr`: from the stderr of the process to the client, line by line.
pub mod Lines
use mcptp.Base.{
  ℕ, Bool, true, false, Option, none, some, List, [], ◌∷◌, ◌++◌, String, Bytes, ltb, length, take,
  ◌==◌, codes, if◌then◌else◌,
}
use mcptp.Oob.{Payload, process_stderr}

-- The error that `stderrReader.ReadString` returns.
pub data ReadEnd : Type 0 where
  eof : ReadEnd
  other : String → ReadEnd

-- One round of the loop: the bytes that `ReadString('\n')` returns with its error (`none` is nil),
-- whether the message could be sent, and whether the context is cancelled.
pub record Turn : Type 0 where
  pub line : Bytes
  pub read_error : Option ReadEnd
  pub sent : Bool
  pub cancelled : Bool

pub data LogEntry : Type 0 where
  line_emitted : Bytes → LogEntry
  send_failed : Bytes → LogEntry
  eof_received : LogEntry
  stopped_by_context : LogEntry
  read_failed : String → LogEntry

-- The lines given to `SendWebSocketOoBMessage`, and what has been logged.
pub record Sender : Type 0 where
  pub lines : List Bytes
  pub log : List LogEntry

abbrev pub start : Sender
start = record { lines = []; log = [] }

-- `finished` stands for the value that the deferred function sends.
pub data Progress : Type 0 where
  running : Sender → Progress
  finished : Sender → Progress

-- `strings.TrimSuffix(line, "\n")`
unfoldable pub trim_newline : Bytes → Bytes
trim_newline [] = []
trim_newline (c ∷ []) = if c == b'\n' then [] else c ∷ []
trim_newline (c ∷ d ∷ cs) = c ∷ trim_newline (d ∷ cs)

abbrev pub max_log_line : ℕ
max_log_line = 1024

-- The line as the log shows it.
unfoldable pub log_line : Bytes → Bytes
log_line line =
    if ltb max_log_line (length line) then take max_log_line line ++ codes "..." else line

abbrev note : LogEntry → Sender → Sender
note entry s = record s { log = s.log ++ entry ∷ [] }

-- `if len(line) > 0 { … }`
emit : Bytes → Bool → Sender → Sender
unfolding log_line
emit [] sent s = s
emit (c ∷ cs) sent s =
    let line = c ∷ cs in
    let s' = note (line_emitted (log_line line)) (record s { lines = s.lines ++ line ∷ [] }) in
    if sent then s' else note (send_failed line) s'

-- `if err != nil { … }`
check_error : Option ReadEnd → Bool → Sender → Progress
check_error none cancelled s = running s
check_error (some eof) cancelled s = finished (note eof_received s)
check_error (some (other e)) cancelled s =
    finished (note (if cancelled then stopped_by_context else read_failed e) s)

-- One round of the loop.
step : Turn → Sender → Progress
unfolding emit check_error trim_newline
step t s = check_error t.read_error t.cancelled (emit (trim_newline t.line) t.sent s)

resume : (Sender → Progress) → Progress → Progress
resume next (running s) = next s
resume next (finished s) = finished s

-- `senderStderr` from the top of its loop, over the rounds that the environment answers.
unfoldable pub forward : Sender → List Turn → Progress
unfolding step resume
forward s [] = running s
forward s (t ∷ ts) = resume (λ s'. forward s' ts) (step t s)
