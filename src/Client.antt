-- ===== src/Client.antt =====
-- client: the proxy that the MCP client launches. One module for each worker of a connection, one
-- for the function that runs a connection, and one for the command line.
pub mod Settings
pub mod Flags
pub mod Exit
pub mod Receiver
pub mod Sender
pub mod Proxy
