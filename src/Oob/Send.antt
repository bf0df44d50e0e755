-- ===== src/Oob/Send.antt =====
-- protocol/oob.go: the five `SendWebSocketOoBMessage`, with the errors that they return.
pub mod Delivery
use mcptp.Base.{
  Option, none, some, List, [], ◌∷◌, String, Bytes, ℤ, Result, failed, ok, ◌>>=◌, wrap,
}
use mcptp.Json.{Json, Grammar}
use mcptp.Oob.{
  Payload, start_ok, start_err, shutdown, server_exited, process_stderr, ServerExited, Message,
  type_start_ok, type_start_err, type_shutdown, type_server_exited, type_process_stderr,
  marshal_payload, marshal_message,
}
use mcptp.Websocket.{MessageType, text_type}

-- "failed to marshal payload: …", "failed to marshal envelope: …", "failed to send message: …"
pub data SendError : Type 0 where
  payload_failed envelope_failed send_failed : String → SendError

-- `json.Marshal`, with the texts that it makes of Go strings, and the error of `wsc.Write` for a
-- message.
pub record Channel : Type 0 where
  pub decode_utf8 : Bytes → String
  pub marshal : Json → Result String Bytes
  pub write : MessageType → Bytes → Option String

-- The messages that are given to `wsc.Write`, and the error that is returned.
abbrev pub Outcome : Type 0
Outcome = List (MessageType × Bytes) × Option SendError

to_outcome : Channel → Result SendError Bytes → Outcome
to_outcome c (failed e) = ([], some e)
to_outcome c (ok msg) = elim (c.write text_type msg) [
  | none ↦ ((text_type, msg) ∷ [], none)
  | some e ↦ ((text_type, msg) ∷ [], some (send_failed e))
]

-- The payload is marshalled, and stands as it is in the envelope, which is marshalled in its turn.
envelope : Channel → String → Json → Result SendError Bytes
envelope c kind payload = do
  _ ← wrap payload_failed (c.marshal payload)
  wrap envelope_failed
      (c.marshal (marshal_message (record { kind = kind; payload = some payload })))

-- One for each payload type.
unfoldable pub send_start_ok : Channel → ℤ → Outcome
unfolding to_outcome envelope
send_start_ok c pid =
    to_outcome c (envelope c type_start_ok (marshal_payload c.decode_utf8 (start_ok pid)))

unfoldable pub send_start_err : Channel → Bytes → Outcome
unfolding to_outcome envelope
send_start_err c e =
    to_outcome c (envelope c type_start_err (marshal_payload c.decode_utf8 (start_err e)))

unfoldable pub send_shutdown : Channel → Outcome
unfolding to_outcome envelope
send_shutdown c = to_outcome c (envelope c type_shutdown (marshal_payload c.decode_utf8 shutdown))

unfoldable pub send_server_exited : Channel → ServerExited → Outcome
unfolding to_outcome envelope
send_server_exited c m =
    to_outcome c (envelope c type_server_exited (marshal_payload c.decode_utf8 (server_exited m)))

unfoldable pub send_process_stderr : Channel → Bytes → Outcome
unfolding to_outcome envelope
send_process_stderr c line =
    to_outcome c
      (envelope c type_process_stderr (marshal_payload c.decode_utf8 (process_stderr line)))

-- The method of the interface `OoBPayload`.
unfoldable pub send : Channel → Payload → Outcome
unfolding send_start_ok send_start_err send_shutdown send_server_exited send_process_stderr
send c (start_ok pid) = send_start_ok c pid
send c (start_err e) = send_start_err c e
send c shutdown = send_shutdown c
send c (server_exited m) = send_server_exited c m
send c (process_stderr line) = send_process_stderr c line
