-- ===== src/Jsonrpc/Accumulator.antt =====
-- protocol/jsonrpcv2/accumulator.go. The value of an accumulator is that of its buffer.
pub mod Lines
pub mod Streams
use mcptp.Base.{
  ℕ, zero, suc, ◌+◌, Bool, true, false, not, Option, none, some, List, [], ◌∷◌, Bytes, length, ◌==◌,
  if◌then◌else◌,
}
use mcptp.Json.{Grammar}
use mcptp.Jsonrpc.Buffer.{index_byte, write, read, next}
use mcptp.Jsonrpc.Request
use mcptp.Jsonrpc.Request.{Request}
use mcptp.Jsonrpc.Response
use mcptp.Jsonrpc.Response.{Response}

abbrev pub Accumulator : Type 0
Accumulator = Bytes

-- "failed to read command line: …" (twice), "failed to unmarshal command line: …",
-- "invalid request" or "invalid response".
pub data AccumulateError : Type 0 where
  read_failed short_read unmarshal_failed invalid_message : AccumulateError

-- A pointer and an error: nil and nil, a message, or an error.
pub data Accumulated (A : Type 0) : Type 0 where
  incomplete : Accumulated A
  complete : A → Accumulated A
  rejected : AccumulateError → Accumulated A

-- The loop that drains complete lines. Each round takes at least one byte off the buffer, so its
-- length is fuel enough.
drain_lines : ℕ → Bytes → Bytes
drain_lines zero buffer = buffer
drain_lines (suc fuel) buffer = elim (index_byte buffer b'\n') [
  | none ↦ buffer
  | some i ↦ drain_lines fuel (next buffer (i + 1))
]

-- The end of `readCompleteLine`, from the result of reading i + 1 bytes.
take_line : ℕ → Option (Bytes × Bytes) → Accumulator → Accumulated Bytes × Accumulator
take_line i none buffer = (rejected read_failed, buffer)
take_line i (some (line, rest)) buffer =
    if not (length line == i + 1)
    then (rejected short_read, [])
    else (complete line, drain_lines (length rest) rest)

-- `readCompleteLine`: the line with its newline, and the accumulator left.
pub read_complete_line : Accumulator → Bytes → Accumulated Bytes × Accumulator
unfolding take_line drain_lines index_byte
read_complete_line accumulator chunk =
    let buffer = write accumulator chunk in
    elim (index_byte buffer b'\n') [
      | none ↦ (incomplete, buffer)
      | some i ↦ take_line i (read buffer (i + 1)) buffer
    ]

-- What follows `readCompleteLine` in `AccumulateRequest` and in `AccumulateResponse`.
unfoldable pub check_message : {A : Type 0} → (A → Bool) → Option A → Accumulated A
check_message valid none = rejected unmarshal_failed
check_message valid (some m) = if not (valid m) then rejected invalid_message else complete m

module _ {A : Type 0} (unmarshal : Bytes → Option A) (valid : A → Bool) where
  check_line : Accumulated Bytes → Accumulated A
  unfolding check_message
  check_line incomplete = incomplete
  check_line (rejected e) = rejected e
  check_line (complete line) = check_message valid (unmarshal line)

unfoldable pub accumulate_request :
    Grammar → Accumulator → Bytes → Accumulated Request × Accumulator
unfolding read_complete_line check_line Request.valid
accumulate_request G accumulator chunk =
    let (line, left) = read_complete_line accumulator chunk in
    (check_line (Request.unmarshal G) Request.valid line, left)

unfoldable pub accumulate_response :
    Grammar → Accumulator → Bytes → Accumulated Response × Accumulator
unfolding read_complete_line check_line Response.valid
accumulate_response G accumulator chunk =
    let (line, left) = read_complete_line accumulator chunk in
    (check_line (Response.unmarshal G) Response.valid line, left)
