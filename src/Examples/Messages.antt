-- ===== src/Examples/Messages.antt =====
-- JSON-RPC and out-of-band messages.
use mcptp.Base.{◌≡◌, refl, false, none, some, [], ◌∷◌, ◌++◌, String, Bytes, pos, negsuc, ℤ, ok}
use mcptp.Examples.Postfix.{postfix, postfix-IsGrammar}
use mcptp.Json.{Json, Fields, integer, text, object, field, end}
use mcptp.Jsonrpc.Accumulator.{incomplete, complete, read_complete_line}
use mcptp.Jsonrpc.Accumulator.Lines.{read_complete_line-lines}
use mcptp.Jsonrpc.Accumulator.Streams.{
  accumulate_requests, accumulate_requests-left, accumulate_requests-fragments,
}
use mcptp.Jsonrpc.Error
use mcptp.Jsonrpc.Request
use mcptp.Jsonrpc.Request.{Request}
use mcptp.Jsonrpc.Response
use mcptp.Jsonrpc.Response.{Response}
use mcptp.Server.Stdout.Responses.{IsResponse}
use mcptp.Jsonrpc.Validity.{server_error_unnamed}
use mcptp.Oob.{ServerExited, server_exited, received, read_message}
use mcptp.Oob.RoundTrip.{as_texts}
use mcptp.Oob.Send.{Channel, send}
use mcptp.Oob.Send.Delivery.{as_send_error, send-received}
use mcptp.Websocket.{text_type}

-- {"jsonrpc": "2.0", "method": "go", "id": 7}
abbrev pub call_fields : Fields
call_fields =
    field "jsonrpc" (text "2.0") (field "METHOD" (text "go") (field "id" (integer (pos 7)) end))

abbrev call : Json
call = object call_fields

abbrev request : Request
request = record { jsonrpc = "2.0"; method = "go"; params = none; id = some (integer (pos 7)) }

unfoldable pub call_line : Bytes
unfolding postfix
call_line = postfix.print call

call_reads : Request.unmarshal postfix (call_line ++ 10 ∷ []) ≡ some request
unfolding Request.unmarshal postfix call_line
call_reads = refl

-- The call in two fragments, with the start of another line behind it.
read_complete_line-lines_example :
    read_complete_line (65 ∷ []) (66 ∷ 10 ∷ 67 ∷ 10 ∷ 68 ∷ [])
    ≡ (complete (65 ∷ 66 ∷ 10 ∷ []), 68 ∷ [])
read_complete_line-lines_example = read_complete_line-lines (65 ∷ []) (66 ∷ 10 ∷ 67 ∷ 10 ∷ 68 ∷ [])

accumulate_requests-left_example :
    (accumulate_requests postfix [] ((1 ∷ 10 ∷ []) ∷ (2 ∷ []) ∷ (3 ∷ 10 ∷ 4 ∷ []) ∷ [])).1 ≡ 4 ∷ []
accumulate_requests-left_example =
    accumulate_requests-left postfix [] ((1 ∷ 10 ∷ []) ∷ (2 ∷ []) ∷ (3 ∷ 10 ∷ 4 ∷ []) ∷ []) refl

accumulate_requests-fragments_example :
    accumulate_requests postfix [] (call_line ∷ (10 ∷ 9 ∷ []) ∷ [])
    ≡ (incomplete ∷ complete request ∷ [], 9 ∷ [])
unfolding call_line Request.valid Request.unmarshal postfix
accumulate_requests-fragments_example =
    accumulate_requests-fragments postfix [] (call_line ∷ []) [] (9 ∷ []) refl call_reads refl

-- "exit 3"
abbrev pub exit_text : Bytes
exit_text = b'e' ∷ b'x' ∷ b'i' ∷ b't' ∷ b' ' ∷ b'3' ∷ []

-- A process that exits with 3.
abbrev pub exited : ServerExited
exited = record { exit_code = some (pos 3); killed = false; error = exit_text }

-- A websocket that is closed: every write fails.
abbrev torn : Channel
torn = record {
  marshal = (λ v. ok (postfix.print v));
  decode_utf8 = postfix.decode_utf8;
  write = (λ t m. some "closed");
}

send-received_example :
    (msg : Bytes) × (send torn (server_exited exited)
      ≡ ((text_type, msg) ∷ [], as_send_error (torn.write text_type msg)))
    × (read_message postfix msg ≡ received (as_texts postfix (server_exited exited)))
send-received_example =
    send-received postfix torn (server_exited exited) postfix-IsGrammar ((λ v. refl), refl) refl

-- {"jsonrpc": "2.0", "result": 1, "id": 7}
abbrev answer : Json
answer = object (
    field "jsonrpc" (text "2.0")
      (field "result" (integer (pos 1)) (field "id" (integer (pos 7)) end)))

unfoldable pub answer_line : Bytes
unfolding postfix
answer_line = postfix.print answer

abbrev response : Response
response = record {
  jsonrpc = "2.0";
  result = some (integer (pos 1));
  error = none;
  id = some (integer (pos 7));
}

pub answer_line-IsResponse : IsResponse postfix answer_line
unfolding Response.unmarshal Response.valid postfix answer_line
answer_line-IsResponse = record { whole = refl; response = response; reads = refl; is_valid = refl }

abbrev dash : ℤ → String
dash e = "-"

-- -32050, in the reserved range.
server_error_unnamed_example : Error.to_string dash (negsuc 32049) ≡ "Error code -"
server_error_unnamed_example = server_error_unnamed dash (negsuc 32049) refl refl
