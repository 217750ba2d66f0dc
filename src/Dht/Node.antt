-- ===== src/Dht/Node.antt =====
-- src/core/dht/dht_node.h and .cpp: the node that places keys on a fixed set of peers.
pub mod Placement
use s2_decentralised_storage.Prelude.{
  ℕ, ◌≡◌, Bool, true, false, Option, none, some, List, [], ◌∷◌, map, Bytes, codes, length, leb, ltb,
  ◌==◌, if◌then◌else◌, ◌>>=◌,
}
use s2_decentralised_storage.Cpp.Int.{ℤ, pos, negsuc}
use s2_decentralised_storage.Crypto.Sha256.{Sha256}
use s2_decentralised_storage.Dht.Id.{KademliaId, PeerEndpoint, make_node_id, make_key_id}
use s2_decentralised_storage.Dht.RoutingTable.{
  NodeInfo, RoutingTable, empty, add_node, closest_nodes,
}

pub record DhtNode : Type 0 where
  pub self_id : KademliaId
  pub table : RoutingTable

-- `if (replicas <= 0) replicas = 1;`
unfoldable pub at_least_one : ℤ → ℕ
at_least_one (pos n) = if n == 0 then 1 else n
at_least_one (negsuc n) = 1

module _ (sha : Sha256) where
  -- The loop of the constructor; none is an exception out of `makeNodeId`.
  unfoldable pub add_peers : RoutingTable → List PeerEndpoint → Option RoutingTable
  add_peers t [] = some t
  add_peers t (p ∷ peers) = do
    id ← make_node_id sha p
    add_peers (add_node t (record { id = id; endpoint = p })) peers

  -- The constructor.
  unfoldable pub create : List PeerEndpoint → Option DhtNode
  unfolding add_peers
  create peers = do
    self ← make_key_id sha (codes "client")
    table ← add_peers (empty self) peers
    some (record { self_id = self; table = table })

  unfoldable pub find_node : DhtNode → KademliaId → ℕ → List NodeInfo
  find_node d target k =
      let all = length d.table.nodes in
      if all == 0
      then []
      else if k == 0
      then []
      else closest_nodes d.table target (if ltb all k then all else k)

  unfoldable pub store : DhtNode → Bytes → ℤ → Option (List PeerEndpoint)
  unfolding at_least_one
  store d key replicas =
      let all = length d.table.nodes in
      let k = at_least_one replicas in
      if all == 0 then some [] else do
        key_id ← make_key_id sha key
        some (map (λ n. n.endpoint) (closest_nodes d.table key_id (if ltb all k then all else k)))

  unfoldable pub find_value : DhtNode → Bytes → ℤ → Option (List PeerEndpoint)
  unfolding store
  find_value d key replicas = store d key replicas
