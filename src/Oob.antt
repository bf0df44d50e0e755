-- ===== src/Oob.antt =====
-- protocol/oob.go: the out-of-band messages, which go as text frames beside the data. Each payload
-- type is a constructor, and `frame` is the text that is sent when nothing fails. The methods that
-- send it are in Oob/Send.
pub mod Send
pub mod RoundTrip
use mcptp.Base.{
  Bool, true, false, Option, none, some, [], String, str_eq, Bytes, if◌then◌else◌, ℤ, pos, ◌≡◌,
}
use mcptp.Json.{
  Json, null, boolean, integer, text, object, Fields, end, field, Grammar, RawMessage, ◌>>=◌,
  bind_field, members, decode_string, decode_bytes, decode_bool, decode_int, decode_int_pointer,
  decode_raw,
}

-- `OoBMessageServerExitedPayload`; the Go strings of the payloads may hold any bytes.
pub record ServerExited : Type 0 where
  pub exit_code : Option ℤ
  pub killed : Bool
  pub error : Bytes

pub data Payload : Type 0 where
  start_ok : ℤ → Payload
  start_err : Bytes → Payload
  shutdown : Payload
  server_exited : ServerExited → Payload
  process_stderr : Bytes → Payload

-- `oobMessage`
pub record Message : Type 0 where
  pub kind : String
  pub payload : RawMessage

abbrev pub type_start_ok : String
type_start_ok = "start_ok"

abbrev pub type_start_err : String
type_start_err = "start_err"

abbrev pub type_shutdown : String
type_shutdown = "shutdown"

abbrev pub type_server_exited : String
type_server_exited = "server_exited"

abbrev pub type_process_stderr : String
type_process_stderr = "process_stderr"

abbrev pub type_of : Payload → String
type_of (start_ok _) = type_start_ok
type_of (start_err _) = type_start_err
type_of shutdown = type_shutdown
type_of (server_exited _) = type_server_exited
type_of (process_stderr _) = type_process_stderr

abbrev pointer : Option ℤ → Json
pointer none = null
pointer (some n) = integer n

-- `json.Marshal(m)` for a payload: the fields under the names of their tags,
-- and the bytes of a string made a text.
abbrev pub marshal_payload : (Bytes → String) → Payload → Json
marshal_payload utf8 (start_ok pid) = object (field "pid" (integer pid) end)
marshal_payload utf8 (start_err e) = object (field "error" (text (utf8 e)) end)
marshal_payload utf8 shutdown = object end
marshal_payload utf8 (server_exited m) = object (
    field "exit_code" (pointer m.exit_code)
      (field "killed" (boolean m.killed) (field "error" (text (utf8 m.error)) end)))
marshal_payload utf8 (process_stderr line) = object (field "line" (text (utf8 line)) end)

-- `json.Marshal` for the envelope; an empty payload is omitted.
abbrev pub marshal_message : Message → Json
marshal_message m =
    object
      (field "type" (text m.kind) (elim m.payload [ none ↦ end | some v ↦ field "data" v end ]))

-- The text frame that `SendWebSocketOoBMessage` writes.
unfoldable pub frame : Grammar → Payload → Bytes
frame G p = G.print (
    marshal_message (record { kind = type_of p; payload = some (marshal_payload G.decode_utf8 p) }))

-- "failed to unmarshal message: …", "failed to unmarshal payload: …", "unknown message type: …"
pub data ReadError : Type 0 where
  bad_message bad_payload : ReadError
  unknown_type : String → ReadError

pub data ReadResult : Type 0 where
  received : Payload → ReadResult
  unreadable : ReadError → ReadResult

unmarshal_message : Grammar → Bytes → Option Message
unmarshal_message G msg = do
  value ← G.parse msg
  fields ← members value
  name ← bind_field "type" decode_string fields (some "")
  raw ← bind_field "data" decode_raw fields (some none)
  some (record { kind = name; payload = raw })

-- `json.Unmarshal(m.Payload, &received)`: an empty message is a syntax error.
unmarshal_start_ok : RawMessage → Option Payload
unmarshal_start_ok raw = do
  value ← raw
  fields ← members value
  pid ← bind_field "pid" decode_int fields (some (pos 0))
  some (start_ok pid)

unmarshal_start_err : Grammar → RawMessage → Option Payload
unmarshal_start_err G raw = do
  value ← raw
  fields ← members value
  e ← bind_field "error" (decode_bytes G) fields (some [])
  some (start_err e)

unmarshal_shutdown : RawMessage → Option Payload
unmarshal_shutdown raw = do value ← raw; fields ← members value; some shutdown

unmarshal_server_exited : Grammar → RawMessage → Option Payload
unmarshal_server_exited G raw = do
  value ← raw
  fields ← members value
  code ← bind_field "exit_code" decode_int_pointer fields (some none)
  was_killed ← bind_field "killed" decode_bool fields (some false)
  e ← bind_field "error" (decode_bytes G) fields (some [])
  some (server_exited (record { exit_code = code; killed = was_killed; error = e }))

unmarshal_process_stderr : Grammar → RawMessage → Option Payload
unmarshal_process_stderr G raw = do
  value ← raw
  fields ← members value
  line ← bind_field "line" (decode_bytes G) fields (some [])
  some (process_stderr line)

payload_result : Option Payload → ReadResult
payload_result none = unreadable bad_payload
payload_result (some p) = received p

-- The `switch m.Type`.
read_payload : Grammar → Message → ReadResult
unfolding unmarshal_start_ok unmarshal_start_err unmarshal_shutdown unmarshal_server_exited
    unmarshal_process_stderr payload_result
read_payload G m =
    if str_eq m.kind type_start_ok
    then payload_result (unmarshal_start_ok m.payload)
    else if str_eq m.kind type_start_err
    then payload_result (unmarshal_start_err G m.payload)
    else if str_eq m.kind type_shutdown
    then payload_result (unmarshal_shutdown m.payload)
    else if str_eq m.kind type_server_exited
    then payload_result (unmarshal_server_exited G m.payload)
    else if str_eq m.kind type_process_stderr
    then payload_result (unmarshal_process_stderr G m.payload)
    else unreadable (unknown_type m.kind)

-- `ReadWebSocketOoBMessage`
unfoldable pub read_message : Grammar → Bytes → ReadResult
unfolding unmarshal_message read_payload
read_message G msg = elim (unmarshal_message G msg) [
  | none ↦ unreadable bad_message
  | some m ↦ read_payload G m
]
