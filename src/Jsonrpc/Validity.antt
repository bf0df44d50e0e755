-- ===== src/Jsonrpc/Validity.antt =====
-- What the validity tests of the messages let through.
use mcptp.Base.{
  ◌≡◌, ◌≢◌, ◌↔◌, ◌⊎◌, refl, true, false, none, some, List, [], ◌∷◌, arith, String, Bytes, All, ℤ,
  leb_ℤ, ◌<>◌, Option-cases, inl, inr,
}
use text.Mathlib.TextEquality.{eq_iff}
use mcptp.Json.{object, Fields, Grammar, Lacks, bind_field-Lacks, decode_raw}
use mcptp.Jsonrpc.Accumulator.{
  rejected, AccumulateError, check_message, unmarshal_failed, invalid_message,
}
use mcptp.Jsonrpc.Batch.{all_requests, valid_batch}
use mcptp.Jsonrpc.Error
use mcptp.Jsonrpc.Error.{server_error_min, server_error_max, decode_error_pointer}
use mcptp.Jsonrpc.Request
use mcptp.Jsonrpc.Request.{Request, jsonrpc_version}
use mcptp.Jsonrpc.Response
use mcptp.Jsonrpc.Response.{Response}

-- A response is valid exactly if it has version 2.0 and is either a success or an error.
valid_iff_one_outcome :
    (r : Response)
    → (Response.valid r ≡ true) ↔ (
        (r.jsonrpc ≡ jsonrpc_version)
        × (((Response.is_success r ≡ true) × (Response.is_error r ≡ false))
            ⊎ ((Response.is_success r ≡ false) × (Response.is_error r ≡ true) × (r.result ≡ none))))
unfolding Response.valid Response.is_success Response.is_error
valid_iff_one_outcome r = ground (arith, eq_iff r.jsonrpc jsonrpc_version)

all_requests_iff :
    (rs : List Request) → (all_requests rs ≡ true) ↔ All (λ r. Request.valid r ≡ true) rs
unfolding all_requests
all_requests_iff [] = (λ _. tt, λ _. refl)
all_requests_iff (r ∷ rs) = ground (arith, all_requests_iff rs)

-- A batch is valid exactly if it has a request and each is valid.
pub valid_batch_iff :
    (rs : List Request)
    → (valid_batch rs ≡ true) ↔ ((rs ≢ []) × All (λ r. Request.valid r ≡ true) rs)
unfolding valid_batch
valid_batch_iff [] = ground arith
valid_batch_iff (r ∷ rs) = ground (arith, all_requests_iff (r ∷ rs))

-- Every code of the range that the specification reserves for server errors gets the text of an
-- unknown code: the test between the two bounds never passes.
pub server_error_unnamed :
    (decimal : ℤ → String) (e : ℤ)
    → leb_ℤ server_error_max e ≡ true
    → leb_ℤ e server_error_min ≡ true
    → Error.to_string decimal e ≡ "Error code " <> decimal e
unfolding Error.to_string
server_error_unnamed decimal e lo hi = ground arith

unmarshal-Lacks :
    (G : Grammar) (line : Bytes) (fields : Fields) (r : Response)
    → G.parse line ≡ some (object fields)
    → Lacks "result" fields
    → Lacks "error" fields
    → Response.unmarshal G line ≡ some r
    → (r.result ≡ none) × (r.error ≡ none)
unfolding Response.unmarshal
unmarshal-Lacks G line fields r p a b e = ground (
  arith,
  bind_field-Lacks "result" decode_raw fields (some none) a,
  bind_field-Lacks "error" decode_error_pointer fields (some none) b,
)

-- A line that holds an object with neither a result nor an error is rejected as a response: so are
-- all requests and notifications.
pub check_message-Lacks :
    (G : Grammar) (line : Bytes) (fields : Fields)
    → G.parse line ≡ some (object fields)
    → Lacks "result" fields
    → Lacks "error" fields
    → (e : AccumulateError) × (check_message Response.valid (Response.unmarshal G line)
        ≡ rejected e)
unfolding check_message Response.valid
check_message-Lacks G line fields p a b = elim (Option-cases (Response.unmarshal G line)) [
  | inl h ↦ (unmarshal_failed, rw h)
  | inr (r, h) ↦ (invalid_message, rw h (ground (arith, unmarshal-Lacks G line fields r p a b h)))
]
