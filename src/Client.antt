-- ===== src/Client.antt =====
-- src/client: the command line and the graphical client.
pub mod Peers
pub mod CommandLine
pub mod Worker
pub mod Qt
pub mod Window
