-- ===== src/Dht.antt =====
-- src/core/dht: identifiers with the XOR metric, the routing table, and the placement of keys on peers.
pub mod Id
pub mod RoutingTable
pub mod Node
