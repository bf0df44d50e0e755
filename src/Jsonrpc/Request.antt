-- ===== src/Jsonrpc/Request.antt =====
-- protocol/jsonrpcv2/jsonrpcv2.go: `Request` and its methods.
use text.Mathlib.Text.{starts_with}
use mcptp.Base.{Bool, true, false, not, ◌&&◌, Option, none, some, String, str_eq, Bytes}
use mcptp.Json.{
  Json, Grammar, RawMessage, ◌>>=◌, bind_field, members, decode_string, decode_raw, decode_any,
}

abbrev pub jsonrpc_version : String
jsonrpc_version = "2.0"

abbrev pub reserved_method_prefix : String
reserved_method_prefix = "rpc."

pub record Request : Type 0 where
  pub jsonrpc : String
  pub method : String
  pub params : RawMessage
  pub id : Option Json

unfoldable pub valid : Request → Bool
valid r = str_eq r.jsonrpc jsonrpc_version && not (str_eq r.method "")

unfoldable pub is_notification : Request → Bool
is_notification r = elim r.id [ none ↦ true | some _ ↦ false ]

unfoldable pub is_reserved_method : Request → Bool
is_reserved_method r = starts_with r.method reserved_method_prefix

-- `json.Unmarshal(line, request)` on a new request; `none` is its error.
unfoldable pub unmarshal : Grammar → Bytes → Option Request
unmarshal G line = do
  value ← G.parse line
  fields ← members value
  version ← bind_field "jsonrpc" decode_string fields (some "")
  name ← bind_field "method" decode_string fields (some "")
  arguments ← bind_field "params" decode_raw fields (some none)
  identifier ← bind_field "id" (decode_any G) fields (some none)
  some (record { jsonrpc = version; method = name; params = arguments; id = identifier })
