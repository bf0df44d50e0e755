-- ===== src/Mtls.antt =====
-- protocol/mtls.go and mtls/command.go: the certificates that the two proxies trust each other by.
pub mod Certificates
pub mod Flags
pub mod Configuration
pub mod Command
pub mod Laws
pub mod Roles
pub mod Files
pub mod Bundle
pub mod Privacy
