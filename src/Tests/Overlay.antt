-- ===== src/Tests/Overlay.antt =====
-- Identifiers, the routing table and the placement of keys, with a small function for SHA-256.
use s2_decentralised_storage.Prelude.{
  ℕ, zero, suc, ◌<◌, ◌≡◌, ◌≢◌, refl, some, List, [], ◌∷◌, ◌++◌, Bytes, codes, length, All,
  replicate, arith, ap, min, false,
}
use mathlib.Core.List.{Perm}
use s2_decentralised_storage.Cpp.Int.{pos}
use s2_decentralised_storage.Cpp.Sort.{IsSorted}
use s2_decentralised_storage.Crypto.Hex.{IsByte}
use s2_decentralised_storage.Dht.Id.{KademliaId, PeerEndpoint, closer_to}
use s2_decentralised_storage.Dht.Id.Metric.{IsId}
use s2_decentralised_storage.Dht.RoutingTable.{
  NodeInfo, RoutingTable, add_node, closest_nodes, nearer,
}
use s2_decentralised_storage.Dht.RoutingTable.Known.{IsValid, add_node-IsValid}
use s2_decentralised_storage.Dht.RoutingTable.Closest.{closest_nodes_lem}
use s2_decentralised_storage.Dht.Node.{DhtNode, create, store, at_least_one}
use s2_decentralised_storage.Dht.Node.Placement.{IsFilled, AreDistinct, create_total, store_lem}
use s2_decentralised_storage.Tests.Keys.{toy_sha}

abbrev id_of : ℕ → KademliaId
id_of b = b ∷ replicate 19 0

zeros-All-bytes : (n : ℕ) → All IsByte (replicate n 0)
zeros-All-bytes zero = tt
zeros-All-bytes (suc n) = (omega arith, zeros-All-bytes n)

id_of-IsId : (b : ℕ) → b < 256 → IsId (id_of b)
id_of-IsId b h = record { size = refl; bytes = (h, zeros-All-bytes 19) }

first : Bytes → ℕ
first [] = 0
first (c ∷ s) = c

id_ne : (a b : ℕ) → a ≢ b → id_of a ≢ id_of b
unfolding first
id_ne a b ne e = ne (ap first e)

abbrev peer : ℕ → PeerEndpoint
peer b = record { ip = b ∷ codes ".0.0.1"; port = pos 9000 }

abbrev node : ℕ → NodeInfo
node b = record { id = id_of b; endpoint = peer b }

abbrev table : RoutingTable
table = record { self_id = id_of 1; nodes = node 3 ∷ node 9 ∷ [] }

table-IsValid : IsValid table
table-IsValid = record {
  unique = ((id_ne 9 3 (λ e. omega (arith, e)), tt), (tt, tt));
  not_self = (id_ne 3 1 (λ e. omega (arith, e)), (id_ne 9 1 (λ e. omega (arith, e)), tt));
}

add_node-IsValid_example : IsValid (add_node table (node 12))
add_node-IsValid_example = add_node-IsValid table (node 12) table-IsValid

closest_nodes_lem_example :
    (length (closest_nodes table (id_of 8) 1) ≡ min 1 2)
    × IsSorted (nearer (id_of 8)) (closest_nodes table (id_of 8) 1)
    × ((others : List NodeInfo) × Perm (closest_nodes table (id_of 8) 1 ++ others) table.nodes
        × All
            (λ n. All (λ m. closer_to m.id n.id (id_of 8) ≡ false) others)
            (closest_nodes table (id_of 8) 1))
closest_nodes_lem_example = closest_nodes_lem table (id_of 8) 1

abbrev peers : List PeerEndpoint
peers = peer 3 ∷ peer 9 ∷ peer 12 ∷ []

abbrev Listens : PeerEndpoint → Type 0
Listens p = p.port ≡ pos 9000

peers-All : All Listens peers
peers-All = (refl, (refl, (refl, tt)))

filled : (d : DhtNode) × (create toy_sha peers ≡ some d) × IsFilled toy_sha Listens d.table
filled = create_total toy_sha Listens peers peers-All

store_lem_example :
    (targets : List PeerEndpoint) × (store toy_sha filled.0 (codes "key") (pos 2) ≡ some targets)
    × (length targets ≡ min (at_least_one (pos 2)) (length filled.0.table.nodes))
    × AreDistinct targets
    × All Listens targets
store_lem_example = store_lem toy_sha Listens filled.0 (codes "key") (pos 2) filled.2
