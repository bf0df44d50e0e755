-- ===== src/Jsonrpc/Batch.antt =====
-- protocol/jsonrpcv2/jsonrpcv2.go: `Batch` and `BatchResponse`.
use mcptp.Base.{Bool, true, false, not, List, [], ◌∷◌, if◌then◌else◌}
use mcptp.Jsonrpc.Request
use mcptp.Jsonrpc.Request.{Request}
use mcptp.Jsonrpc.Response
use mcptp.Jsonrpc.Response.{Response}

-- The loop of `Batch.Valid`.
unfoldable pub all_requests : List Request → Bool
all_requests [] = true
all_requests (r ∷ rs) = if not (Request.valid r) then false else all_requests rs

unfoldable pub valid_batch : List Request → Bool
unfolding all_requests
valid_batch [] = false
valid_batch (r ∷ rs) = all_requests (r ∷ rs)

unfoldable pub valid_batch_response : List Response → Bool
valid_batch_response [] = true
valid_batch_response (r ∷ rs) = if not (Response.valid r) then false else valid_batch_response rs
