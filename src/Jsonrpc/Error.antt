-- ===== src/Jsonrpc/Error.antt =====
-- protocol/jsonrpcv2/jsonrpcv2.go: `ErrorCode`, the codes of the specification, and `Error`.
use mcptp.Base.{
  Bool, not, ◌&&◌, Option, none, some, String, ◌<>◌, str_eq, if◌then◌else◌, ℤ, pos, negsuc, leb_ℤ,
  eqb_ℤ,
}
use mcptp.Json.{
  null, Fields, Decoder, RawMessage, ◌>>=◌, bind_field, members, decode_string, decode_int,
  decode_raw,
}

-- `negsuc n` is -(n + 1): -32700 and so on.
abbrev pub parse_error : ℤ
parse_error = negsuc 32699

abbrev pub invalid_request : ℤ
invalid_request = negsuc 32599

abbrev pub method_not_found : ℤ
method_not_found = negsuc 32600

abbrev pub invalid_params : ℤ
invalid_params = negsuc 32601

abbrev pub internal_error : ℤ
internal_error = negsuc 32602

abbrev pub server_error_min : ℤ
server_error_min = negsuc 31999

abbrev pub server_error_max : ℤ
server_error_max = negsuc 32098

-- `ErrorCode.String`; the argument is what `%d` prints of an integer.
unfoldable pub to_string : (ℤ → String) → ℤ → String
to_string decimal e =
    if eqb_ℤ e parse_error
    then "Parse error"
    else if eqb_ℤ e invalid_request
    then "Invalid Request"
    else if eqb_ℤ e method_not_found
    then "Method not found"
    else if eqb_ℤ e invalid_params
    then "Invalid params"
    else if eqb_ℤ e internal_error
    then "Internal error"
    else if leb_ℤ server_error_min e && leb_ℤ e server_error_max
    then "Server error (" <> (decimal e <> ")")
    else "Error code " <> decimal e

pub record Error : Type 0 where
  pub code : ℤ
  pub message : String
  pub payload : RawMessage

unfoldable pub valid : Error → Bool
valid e = not (eqb_ℤ e.code (pos 0)) && not (str_eq e.message "")

abbrev unmarshal_fields : Fields → Option Error
unmarshal_fields fields = do
  number ← bind_field "code" decode_int fields (some (pos 0))
  sentence ← bind_field "message" decode_string fields (some "")
  detail ← bind_field "data" decode_raw fields (some none)
  some (record { code = number; message = sentence; payload = detail })

-- What json.Unmarshal does with a field of type `*Error`: a null clears it, an object is decoded.
unfoldable pub decode_error_pointer : Decoder (Option Error)
decode_error_pointer null old = some none
decode_error_pointer v old = do fields ← members v; e ← unmarshal_fields fields; some (some e)
