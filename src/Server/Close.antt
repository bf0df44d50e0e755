-- ===== src/Server/Close.antt =====
-- server/proxy.go: the close errors that the server's workers hand to `proxy`. A reason is named by
-- a constructor, with the error whose text it holds; `none` for a pointer to a close error is nil.
use mcptp.Base.{String, ℤ}
use mcptp.Jsonrpc.Accumulator.{AccumulateError}
use mcptp.Oob.{ReadError}

pub data Reason : Type 0 where
  read_failed : String → Reason  -- "failed to read websocket message: …"
  stdin_write_failed : String → Reason  -- "failed to write to process stdin: …"
  bad_oob : ReadError → Reason  -- "failed to extract OoB message payload: …"
  shutdown_acknowledged : Reason
  unexpected_type : Reason  -- "unexpected websocket message type"
  stdout_write_failed : String → Reason  -- "failed to write stdout to websocket: …"
  stdout_eof : Reason
  stdout_closed : Reason  -- "stdout pipe closed"
  stdout_read_failed : String → Reason  -- "stdout read error: …"
  stdout_bad_message : AccumulateError → Reason  -- the same text, with an accumulator's error
  start_failed : Reason  -- "process failed to start"
  start_unsent : Reason  -- "failed to send start msg"
  ungraceful : Reason  -- "process did not finish gracefully"

pub record CloseError : Type 0 where
  pub code : ℤ
  pub reason : Reason
