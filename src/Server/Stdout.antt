-- ===== src/Server/Stdout.antt =====
-- server/proxy.go, `senderStdout`: from the stdout of the process to the websocket.
pub mod Frames
pub mod Prefixes
pub mod Sizes
pub mod Stops
pub mod Responses
use mcptp.Base.{
  ℕ, Bool, true, false, Option, none, some, List, [], ◌∷◌, ◌++◌, String, Bytes, ℤ, negsuc, eqb_ℤ,
  if◌then◌else◌,
}
use mcptp.Json.{Grammar}
use mcptp.Jsonrpc.Accumulator.{
  Accumulator, Accumulated, incomplete, complete, rejected, AccumulateError, accumulate_response,
}
use mcptp.Jsonrpc.Response.{Response}
use mcptp.Server.Close.{
  Reason, CloseError, stdout_write_failed, stdout_eof, stdout_closed, stdout_read_failed,
  stdout_bad_message,
}
use mcptp.Websocket.{status_normal_closure, status_internal_error}

-- The error that `processStdout.Read` returns, told apart as the loop does.
pub data ReadEnd : Type 0 where
  eof : ReadEnd
  closed_pipe : ReadEnd  -- `errors.Is(err, io.ErrClosedPipe)`
  other : String → ReadEnd

-- What `wsc.Write` returns: nil, or an error with its `websocket.CloseStatus` and its text.
pub data Sent : Type 0 where
  sent_ok : Sent
  send_failed : ℤ → String → Sent

-- One round of the loop: the bytes `buf[:n]`, the error of the read (`none` is nil), and the
-- answer to the write.
pub record Turn : Type 0 where
  pub chunk : Bytes
  pub read_error : Option ReadEnd
  pub sent : Sent

pub data LogEntry : Type 0 where
  response_read : Response → LogEntry
  response_failed : AccumulateError → LogEntry

-- The worker's variables, with the frames sent and what has been logged.
pub record Sender : Type 0 where
  pub accumulator : Accumulator
  pub frames : List Bytes
  pub log : List LogEntry

abbrev pub start : Sender
start = record { accumulator = []; frames = []; log = [] }

pub data Progress : Type 0 where
  running : Sender → Progress
  finished : Option CloseError → Sender → Progress

-- The variable `err` of the loop, which a read and an accumulator set.
pub data LoopError : Type 0 where
  read_error : ReadEnd → LoopError
  bad_message : AccumulateError → LoopError

abbrev closing : ℤ → Reason → Option CloseError
closing status why = some (record { code = status; reason = why })

-- `if err != nil { … }` at the end of a round.
check_error : Option LoopError → Sender → Progress
check_error none s = running s
check_error (some (read_error eof)) s = finished (closing status_normal_closure stdout_eof) s
check_error (some (read_error closed_pipe)) s =
    finished (closing status_normal_closure stdout_closed) s
check_error (some (read_error (other e))) s =
    finished (closing status_internal_error (stdout_read_failed e)) s
check_error (some (bad_message e)) s =
    finished (closing status_internal_error (stdout_bad_message e)) s

-- After a frame is sent: `response, err = accumulator.AccumulateResponse(buf[:n])`, which replaces
-- the error of the read.
after_send : Accumulated Response → Sender → Progress
unfolding check_error
after_send incomplete s = check_error none s
after_send (complete r) s = check_error none (record s { log = s.log ++ response_read r ∷ [] })
after_send (rejected e) s =
    check_error (some (bad_message e)) (record s { log = s.log ++ response_failed e ∷ [] })

-- `if n > 0 { … }`
send : Grammar → Bytes → Sent → Sender → Progress
unfolding after_send
send G chunk (send_failed status e) s =
    if eqb_ℤ status (negsuc 0)
    then finished (closing status_internal_error (stdout_write_failed e)) s
    else finished none s
send G chunk sent_ok s =
    let (response, left) = accumulate_response G s.accumulator chunk in
    after_send response (record s { frames = s.frames ++ chunk ∷ []; accumulator = left })

as_loop_error : Option ReadEnd → Option LoopError
as_loop_error none = none
as_loop_error (some e) = some (read_error e)

-- One round of the loop.
step : Grammar → Bytes → Option ReadEnd → Sent → Sender → Progress
unfolding send check_error as_loop_error
step G [] e sent s = check_error (as_loop_error e) s
step G (b ∷ bs) e sent s = send G (b ∷ bs) sent s

resume : (Sender → Progress) → Progress → Progress
resume next (running s) = next s
resume next (finished c s) = finished c s

-- `senderStdout` from the top of its loop, over the rounds that the environment answers.
unfoldable pub forward : Grammar → Sender → List Turn → Progress
unfolding step resume
forward G s [] = running s
forward G s (t ∷ ts) = resume (λ s'. forward G s' ts) (step G t.chunk t.read_error t.sent s)
