-- ===== src/Client/Sender.antt =====
-- client/proxy.go, `senderStdout`: from the websocket to the local stdout, and the exit of the
-- remote process.
pub mod Endings
pub mod Output
pub mod Prefixes
use mcptp.Base.{
  ℕ, take, Bool, true, false, Option, none, some, List, [], ◌∷◌, ◌++◌, String, Bytes, ℤ, pos, eqb_ℤ,
  if◌then◌else◌,
}
use mcptp.Json.{Grammar}
use mcptp.Oob.{
  Payload, start_ok, start_err, shutdown, server_exited, process_stderr, ServerExited, ReadError,
  ReadResult, received, unreadable, read_message,
}
use mcptp.Client.Exit.{
  How, with_code, was_killed, had_error, ExitInfo, Reason, closed_normally, closed_unexpectedly,
  websocket_failed, stdout_write_failed, ExitError,
}
use mcptp.Websocket.{MessageType, text_type, binary_type, other_type, status_normal_closure}

-- What `conn.Read` returns: a message, an error that is a `websocket.CloseError` with its code, or
-- another error.
pub data Incoming : Type 0 where
  message : MessageType → Bytes → Incoming
  closed : ℤ → Incoming
  broken : String → Incoming

-- What `stdout.Write` returns: all is written, or the first n bytes and an error with its text.
pub data Written : Type 0 where
  written_ok : Written
  write_failed : ℕ → String → Written

pub record Turn : Type 0 where
  pub incoming : Incoming
  pub written : Written

-- What goes to the local stderr.
pub data Line : Type 0 where
  server_line : Bytes → Line  -- "[SERVER] …"
  bad_oob_warning : ReadError → Line
  violation_warning : Line  -- a shutdown message from the server
  type_warning : Line  -- an unexpected message type

-- The worker's variables `exitCode` and `exitInfo` (`none` is the empty text), with what has been
-- written to stdout and stderr.
pub record Sender : Type 0 where
  pub exit_code : ℤ
  pub exit_info : Option ExitInfo
  pub stdout : Bytes
  pub stderr : List Line

abbrev pub start : Sender
start = record { exit_code = pos 0; exit_info = none; stdout = []; stderr = [] }

pub data Progress : Type 0 where
  running : Sender → Progress
  finished : ExitError → Sender → Progress

abbrev stop : Reason → ℤ → Sender → Progress
stop why code s = finished (record { reason = why; code = code }) s

abbrev print : Line → Sender → Sender
print line s = record s { stderr = s.stderr ++ line ∷ [] }

-- `case protocol.OoBMessageServerExitedPayload`
unfoldable pub on_exited : ServerExited → Sender → Sender
on_exited m s = elim m.exit_code [
  | some n ↦ record s {
    exit_code = n;
    exit_info = some (record { how = with_code n; error = m.error });
  }
  | none ↦ record s {
    exit_code = pos 1;
    exit_info = some (record { how = if m.killed then was_killed else had_error; error = m.error });
  }
]

-- The switch on the type of an out-of-band message.
on_payload : Payload → Sender → Sender
unfolding on_exited
on_payload (process_stderr line) s = print (server_line line) s
on_payload (server_exited m) s = on_exited m s
on_payload shutdown s = print violation_warning s
on_payload (start_ok _) s = s
on_payload (start_err _) s = s

-- `case websocket.MessageText`
pub on_oob : ReadResult → Sender → Sender
unfolding on_payload
on_oob (unreadable e) s = print (bad_oob_warning e) s
on_oob (received p) s = on_payload p s

-- A failed read.
on_closed : ℤ → Sender → Progress
on_closed status s =
    if eqb_ℤ status status_normal_closure
    then stop (closed_normally s.exit_info) s.exit_code s
    else stop (closed_unexpectedly status s.exit_info) (pos 1) s

-- `case websocket.MessageBinary`
on_binary : Bytes → Written → Sender → Progress
on_binary msg written_ok s = running (record s { stdout = s.stdout ++ msg })
on_binary msg (write_failed n e) s =
    stop (stdout_write_failed e) (pos 1) (record s { stdout = s.stdout ++ take n msg })

-- One round of the loop.
step : Grammar → Incoming → Written → Sender → Progress
unfolding on_closed on_binary on_oob
step G (closed status) w s = on_closed status s
step G (broken e) w s = stop (websocket_failed e) (pos 1) s
step G (message binary_type msg) w s = on_binary msg w s
step G (message text_type msg) w s = running (on_oob (read_message G msg) s)
step G (message other_type msg) w s = running (print type_warning s)

resume : (Sender → Progress) → Progress → Progress
resume next (running s) = next s
resume next (finished e s) = finished e s

-- `senderStdout` from the top of its loop, over the rounds that the environment answers.
unfoldable pub forward : Grammar → Sender → List Turn → Progress
unfolding step resume
forward G s [] = running s
forward G s (t ∷ ts) = resume (λ s'. forward G s' ts) (step G t.incoming t.written s)
