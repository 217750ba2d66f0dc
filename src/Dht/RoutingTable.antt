-- ===== src/Dht/RoutingTable.antt =====
-- src/core/dht/kademlia_routing_table.h and .cpp: a flat list of the known nodes.
pub mod Known
pub mod Closest
use s2_decentralised_storage.Prelude.{
  ℕ, ◌≡◌, Bool, true, false, List, [], ◌∷◌, take, length, bytes_discrete, ite, ltb, ◌==◌,
  if◌then◌else◌,
}
use s2_decentralised_storage.Cpp.Sort.{sort}
use s2_decentralised_storage.Dht.Id.{KademliaId, PeerEndpoint, closer_to}

pub record NodeInfo : Type 0 where
  pub id : KademliaId
  pub endpoint : PeerEndpoint

pub record RoutingTable : Type 0 where
  pub self_id : KademliaId
  pub nodes : List NodeInfo

-- The constructor.
abbrev pub empty : KademliaId → RoutingTable
empty self = record { self_id = self; nodes = [] }

-- The loop that looks for the identifier, and the `push_back` behind it.
unfoldable pub put_node : NodeInfo → List NodeInfo → List NodeInfo
put_node node [] = node ∷ []
put_node node (n ∷ ns) =
    ite (bytes_discrete n.id node.id) (record n { endpoint = node.endpoint } ∷ ns)
      (n ∷ put_node node ns)

unfoldable pub add_node : RoutingTable → NodeInfo → RoutingTable
add_node t node =
    ite (bytes_discrete node.id t.self_id) t (record t { nodes = put_node node t.nodes })

abbrev pub nearer : KademliaId → NodeInfo → NodeInfo → Bool
nearer target a b = closer_to a.id b.id target

-- `resize` cuts the sorted copy if it is longer.
unfoldable pub closest_nodes : RoutingTable → KademliaId → ℕ → List NodeInfo
closest_nodes t target k =
    let tmp = sort (nearer target) t.nodes in
    if length t.nodes == 0
    then []
    else if k == 0
    then []
    else if ltb k (length tmp)
    then take k tmp
    else tmp

-- `allNodes`
abbrev pub all_nodes : RoutingTable → List NodeInfo
all_nodes t = t.nodes
