-- ===== src/Websocket.antt =====
-- protocol/websocket.go, and what both proxies see of the package github.com/coder/websocket: kinds
-- of messages, status codes and close errors are data; what its calls return is an input of the
-- workers.
use mcptp.Base.{ℕ, ◌*◌, ℤ, pos}

abbrev pub default_port : ℕ
default_port = 8623

-- 64 KB
abbrev pub binary_frame_max_size : ℕ
binary_frame_max_size = 64 * 1024

-- `other_type` is any further value of the Go type.
pub data MessageType : Type 0 where
  text_type binary_type other_type : MessageType

abbrev pub status_normal_closure : ℤ
status_normal_closure = pos 1000

abbrev pub status_unsupported_data : ℤ
status_unsupported_data = pos 1003

abbrev pub status_internal_error : ℤ
status_internal_error = pos 1011
