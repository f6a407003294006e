-- ===== src/Server.antt =====
-- server.h and server.cc: the connection to a host.
pub mod Socket
pub mod Received
pub mod Send
pub mod Connection
pub mod Run
