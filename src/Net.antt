-- ===== src/Net.antt =====
-- src/core/net: what the program reads from a socket.
pub mod Connect
pub mod Endpoint
pub mod Socket
