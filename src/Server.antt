-- ===== src/Server.antt =====
-- server: the proxy that runs beside the MCP server. One module for the admission of connections,
-- one for each worker of a connection, one for the function that runs a connection and one for its
-- pipes, one for the service of the command, and one for all that together.
pub mod Settings
pub mod Flags
pub mod Close
pub mod Receiver
pub mod Stdout
pub mod Stderr
pub mod Proxy
pub mod Admission
pub mod Service
pub mod Pipes
pub mod Connections
