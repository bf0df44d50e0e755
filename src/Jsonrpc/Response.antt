-- ===== src/Jsonrpc/Response.antt =====
-- protocol/jsonrpcv2/jsonrpcv2.go: `Response` and its methods.
use mcptp.Base.{
  Bool, true, false, not, ◌&&◌, Option, none, some, String, str_eq, Bytes, if◌then◌else◌,
}
use mcptp.Json.{
  Json, Grammar, RawMessage, ◌>>=◌, bind_field, members, decode_string, decode_raw, decode_any,
}
use mcptp.Jsonrpc.Error.{Error, decode_error_pointer}
use mcptp.Jsonrpc.Request.{jsonrpc_version}

pub record Response : Type 0 where
  pub jsonrpc : String
  pub result : RawMessage
  pub error : Option Error
  pub id : Option Json

-- `len(r.Result) > 0`
abbrev pub has_result : Response → Bool
has_result r = elim r.result [ none ↦ false | some _ ↦ true ]

-- `r.Error != nil`
abbrev pub has_error : Response → Bool
has_error r = elim r.error [ none ↦ false | some _ ↦ true ]

-- `a != b`
abbrev pub differ : Bool → Bool → Bool
differ true b = not b
differ false b = b

unfoldable pub valid : Response → Bool
valid r =
    if not (str_eq r.jsonrpc jsonrpc_version) then false else differ (has_result r) (has_error r)

unfoldable pub is_success : Response → Bool
is_success r = has_result r && not (has_error r)

unfoldable pub is_error : Response → Bool
is_error r = has_error r

-- `json.Unmarshal(line, response)` on a new response; `none` is its error.
unfoldable pub unmarshal : Grammar → Bytes → Option Response
unmarshal G line = do
  value ← G.parse line
  fields ← members value
  version ← bind_field "jsonrpc" decode_string fields (some "")
  success ← bind_field "result" decode_raw fields (some none)
  failure ← bind_field "error" decode_error_pointer fields (some none)
  identifier ← bind_field "id" (decode_any G) fields (some none)
  some (record { jsonrpc = version; result = success; error = failure; id = identifier })
