-- ===== src/Client/Exit.antt =====
-- client/proxy.go: the values of `cli.Exit` that the client's workers and its command make. A message
-- is named by a constructor, with the texts that it holds.
use mcptp.Base.{Option, String, Bytes, ℤ}
use mcptp.Oob.{ReadError, Payload}

-- The parts of `exitInfo`: "exit code …", "killed" or "error", and the error's text.
pub data How : Type 0 where
  with_code : ℤ → How
  was_killed : How
  had_error : How

pub record ExitInfo : Type 0 where
  pub how : How
  pub error : Bytes

pub data Reason : Type 0 where
  stdin_write_failed : String → Reason  -- "failed to write stdin to websocket: …"
  shutdown_unsent : String → Reason  -- "failed to send shutdown message: …"
  cancelled : Reason  -- the error of the context
  stdin_read_failed : String → Reason  -- "failed to read stdin: …"
  closed_normally : Option ExitInfo → Reason  -- "websocket closed with status …"
  closed_unexpectedly : ℤ → Option ExitInfo → Reason  -- "websocket unexpectedly closed …"
  websocket_failed : String → Reason  -- "websocket read error: …"
  stdout_write_failed : String → Reason  -- "failed to write to stdout: …"
  first_read_failed : String → Reason  -- "failed to read from websocket: …"
  not_text : Reason  -- "expected start status as text message from server, …"
  bad_start : ReadError → Reason  -- "failed to parse OoB message: …"
  start_refused : Bytes → Reason  -- "server failed to start process: …"
  unexpected_oob : Payload → Reason  -- "unexpected OoB message type: …"
  dial_failed : String → Reason  -- "failed to connect to server: …"
  in_proxy : Reason → Reason  -- the error of `proxy`, passed on by the command

-- A `cli.ExitCoder`: what `cli.Exit(message, code)` returns.
pub record ExitError : Type 0 where
  pub reason : Reason
  pub code : ℤ
