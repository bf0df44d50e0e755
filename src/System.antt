-- ===== src/System.antt =====
-- The two proxies together: what one puts on the websocket is what the other reads from it.
pub mod Upload
pub mod Download
pub mod ExitCode
pub mod Session
pub mod Losses
pub mod Noise
pub mod Limits
