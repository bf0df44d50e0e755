-- ===== src/Jsonrpc.antt =====
-- protocol/jsonrpcv2: JSON-RPC 2.0 messages read on the wire, for the logs of the proxy server.
pub mod Request
pub mod Error
pub mod Response
pub mod Batch
pub mod Buffer
pub mod Accumulator
pub mod Validity
