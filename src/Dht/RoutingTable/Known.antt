-- ===== src/Dht/RoutingTable/Known.antt =====
-- The invariant of a routing table, and what `addNode` does to it.
use s2_decentralised_storage.Prelude.{
  ◌≡◌, ◌≢◌, refl, sym, ap, ◌∙◌, Option, none, some, List, [], ◌∷◌, All, bytes_discrete, ite, if_pos,
  if_neg, arith,
}
use s2_decentralised_storage.Dht.Id.{KademliaId, PeerEndpoint}
use s2_decentralised_storage.Dht.RoutingTable.{NodeInfo, RoutingTable, put_node, add_node}

-- No identifier stands twice.
abbrev pub AreUnique : List NodeInfo → Type 0
AreUnique [] = Unit
AreUnique (n ∷ ns) = All (λ m. m.id ≢ n.id) ns × AreUnique ns

pub record IsValid (t : RoutingTable) : Type 0 where
  pub unique : AreUnique t.nodes
  pub not_self : All (λ n. n.id ≢ t.self_id) t.nodes

-- The endpoint that the table has for an identifier.
unfoldable pub find_endpoint : KademliaId → List NodeInfo → Option PeerEndpoint
find_endpoint id [] = none
find_endpoint id (n ∷ ns) = ite (bytes_discrete n.id id) (some n.endpoint) (find_endpoint id ns)

put_node-All :
    (P : KademliaId → Type 0) (node : NodeInfo) (ns : List NodeInfo)
    → P node.id
    → All (λ n. P n.id) ns
    → All (λ n. P n.id) (put_node node ns)
unfolding put_node
put_node-All P node [] p h = (p, tt)
put_node-All P node (n ∷ ns) p (q, h) = elim (bytes_discrete n.id node.id) [
  | yes e ↦ rw (if_pos (bytes_discrete n.id node.id) e) (q, h)
  | no e ↦ rw (if_neg (bytes_discrete n.id node.id) e) (q, put_node-All P node ns p h)
]

put_node-AreUnique :
    (node : NodeInfo) (ns : List NodeInfo) → AreUnique ns → AreUnique (put_node node ns)
unfolding put_node
put_node-AreUnique node [] u = (tt, tt)
put_node-AreUnique node (n ∷ ns) (h, u) = elim (bytes_discrete n.id node.id) [
  | yes e ↦ rw (if_pos (bytes_discrete n.id node.id) e) (h, u)
  | no e ↦
      rw (if_neg (bytes_discrete n.id node.id) e)
        (put_node-All (λ i. i ≢ n.id) node ns (λ p. e (sym p)) h, put_node-AreUnique node ns u)
]

-- `addNode` keeps the table free of doubles and of the node itself.
pub add_node-IsValid : (t : RoutingTable) (node : NodeInfo) → IsValid t → IsValid (add_node t node)
unfolding add_node
add_node-IsValid t node v = elim (bytes_discrete node.id t.self_id) [
  | yes e ↦ rw (if_pos (bytes_discrete node.id t.self_id) e) v
  | no e ↦ rw (if_neg (bytes_discrete node.id t.self_id) e) (record {
    unique = put_node-AreUnique node t.nodes v.unique;
    not_self = put_node-All (λ i. i ≢ t.self_id) node t.nodes e v.not_self;
  })
]

find_endpoint-put_node :
    (node : NodeInfo) (id : KademliaId) (ns : List NodeInfo)
    → find_endpoint id (put_node node ns)
      ≡ ite (bytes_discrete node.id id) (some node.endpoint) (find_endpoint id ns)
unfolding find_endpoint put_node
find_endpoint-put_node node id [] = refl
find_endpoint-put_node node id (n ∷ ns) = ground (arith, find_endpoint-put_node node id ns)

-- After `addNode` a node other than the table's own is known under its new endpoint; what is known of
-- every other identifier stays.
pub find_endpoint-add_node :
    (t : RoutingTable) (node : NodeInfo) (id : KademliaId)
    → node.id ≢ t.self_id
    → find_endpoint id (add_node t node).nodes
      ≡ ite (bytes_discrete node.id id) (some node.endpoint) (find_endpoint id t.nodes)
unfolding add_node
find_endpoint-add_node t node id ne =
    ap (λ (u : RoutingTable). find_endpoint id u.nodes)
      (if_neg (bytes_discrete node.id t.self_id) ne _ _)
    ∙ find_endpoint-put_node node id t.nodes
