-- ===== src/Server/Receiver.antt =====
-- server/proxy.go, `receiverStdin`: from the websocket to the stdin of the process.
pub mod Relay
pub mod Prefixes
pub mod Endings
use mcptp.Base.{
  ℕ, Bool, true, false, Option, none, some, List, [], ◌∷◌, ◌++◌, String, Bytes, take, ℤ, negsuc,
  eqb_ℤ, if◌then◌else◌,
}
use mcptp.Json.{Grammar}
use mcptp.Jsonrpc.Accumulator.{
  Accumulator, Accumulated, incomplete, complete, rejected, AccumulateError, accumulate_request,
}
use mcptp.Jsonrpc.Request.{Request}
use mcptp.Oob.{Payload, shutdown, ReadResult, received, unreadable, read_message}
use mcptp.Server.Close.{
  Reason, CloseError, read_failed, stdin_write_failed, bad_oob, shutdown_acknowledged,
  unexpected_type,
}
use mcptp.Websocket.{
  MessageType, text_type, binary_type, other_type, status_normal_closure, status_unsupported_data,
  status_internal_error,
}

-- What `wsc.Read` returns: a message, or an error with its `websocket.CloseStatus` and its text.
pub data Incoming : Type 0 where
  message : MessageType → Bytes → Incoming
  failed : ℤ → String → Incoming

-- What `processStdin.Write` returns: all is written, or the first n bytes and an error.
pub data Written : Type 0 where
  all_written : Written
  write_failed : ℕ → String → Written

-- One round of the loop, as the environment answers it.
pub record Turn : Type 0 where
  pub incoming : Incoming
  pub written : Written

pub data LogEntry : Type 0 where
  request_read : Request → LogEntry
  request_failed : AccumulateError → LogEntry
  unknown_oob : Payload → LogEntry
  closed_without_shutdown : ℤ → LogEntry

-- The worker's variables, with what the process has been given and what has been logged.
pub record Receiver : Type 0 where
  pub accumulator : Accumulator
  pub stdin : Bytes
  pub stdin_open : Bool
  pub log : List LogEntry

abbrev pub start : Receiver
start = record { accumulator = []; stdin = []; stdin_open = true; log = [] }

-- `finished` holds what is sent to the channel `returnErr`.
pub data Progress : Type 0 where
  running : Receiver → Progress
  finished : Option CloseError → Receiver → Progress

abbrev note : LogEntry → Receiver → Receiver
note entry r = record r { log = r.log ++ entry ∷ [] }

stop : ℤ → Reason → Receiver → Progress
stop status why r = finished (some (record { code = status; reason = why })) r

pub log_request : Accumulated Request → Receiver → Receiver
log_request incomplete r = r
log_request (complete q) r = note (request_read q) r
log_request (rejected e) r = note (request_failed e) r

-- `case websocket.MessageBinary`
on_binary : Grammar → Bytes → Written → Receiver → Progress
unfolding stop log_request
on_binary G msg (write_failed n e) r =
    stop status_internal_error (stdin_write_failed e) (record r { stdin = r.stdin ++ take n msg })
on_binary G msg all_written r =
    let (request, left) = accumulate_request G r.accumulator msg in
    running (log_request request (record r { stdin = r.stdin ++ msg; accumulator = left }))

-- `case websocket.MessageText`, from what `ReadWebSocketOoBMessage` returns
on_oob : ReadResult → Receiver → Progress
unfolding stop
on_oob (unreadable e) r = stop status_unsupported_data (bad_oob e) r
on_oob (received shutdown) r = stop status_normal_closure shutdown_acknowledged r
on_oob (received p) r = running (note (unknown_oob p) r)

-- One round of the loop.
step : Grammar → Receiver → Incoming → Written → Progress
unfolding on_binary on_oob stop
step G r (failed status e) w =
    if eqb_ℤ status (negsuc 0)
    then stop status_internal_error (read_failed e) r
    else finished none (note (closed_without_shutdown status) r)
step G r (message binary_type msg) w = on_binary G msg w r
step G r (message text_type msg) w = on_oob (read_message G msg) r
step G r (message other_type msg) w = stop status_unsupported_data unexpected_type r

-- The loop goes on, or the worker returns and its deferred `processStdin.Close` runs.
resume : (Receiver → Progress) → Progress → Progress
resume next (running r) = next r
resume next (finished c r) = finished c (record r { stdin_open = false })

-- `receiverStdin` from the top of its loop, over the rounds that the environment answers.
unfoldable pub receive : Grammar → Receiver → List Turn → Progress
unfolding step resume
receive G r [] = running r
receive G r (t ∷ ts) = resume (λ r'. receive G r' ts) (step G r t.incoming t.written)
