-- ===== src/Peer.antt =====
-- src/core/peer: the requests that peers answer, and the client's side of them.
pub mod Service
pub mod Client
pub mod Line
pub mod Wire
pub mod Lifecycle
pub mod Main
