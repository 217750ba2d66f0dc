-- ===== src/Dht/Node/Placement.antt =====
-- Where a `DhtNode` places a key.
use s2_decentralised_storage.Prelude.{
  ℕ, suc, ◌≡◌, ◌≢◌, refl, sym, ap, ◌∙◌, Bool, some, List, [], ◌∷◌, map, Bytes, codes, length,
  length-map, take, min, All, All-take, bytes_discrete, if_pos, if_neg, arith, ltb, ◌==◌,
  if◌then◌else◌, Bool-cases, inl, inr,
}
use s2_decentralised_storage.Cpp.Int.{ℤ}
use s2_decentralised_storage.Cpp.Sort.{insert, sort, All-insert, All-sort}
use s2_decentralised_storage.Crypto.Sha256.{Sha256}
use s2_decentralised_storage.Dht.Id.{KademliaId, PeerEndpoint, id_size, make_node_id}
use s2_decentralised_storage.Dht.Id.Digest.{make_node_id_lem, make_key_id_lem}
use s2_decentralised_storage.Dht.RoutingTable.{
  NodeInfo, RoutingTable, empty, put_node, add_node, nearer, closest_nodes,
}
use s2_decentralised_storage.Dht.RoutingTable.Known.{AreUnique, IsValid, add_node-IsValid}
use s2_decentralised_storage.Dht.RoutingTable.Closest.{closest_nodes-take, closest_nodes_lem}
use s2_decentralised_storage.Dht.Node.{DhtNode, at_least_one, add_peers, create, store, find_value}

insert-AreUnique :
    (less : NodeInfo → NodeInfo → Bool) (x : NodeInfo) (l : List NodeInfo)
    → All (λ m. m.id ≢ x.id) l
    → AreUnique l
    → AreUnique (insert less x l)
unfolding insert
insert-AreUnique less x [] h u = (tt, tt)
insert-AreUnique less x (y ∷ ys) (p, h) (g, u) = elim (Bool-cases (less y x)) [
  | inl e ↦
      rw (e, insert)
        (All-insert less (λ m. m.id ≢ y.id) x ys (λ q. p (sym q)) g, insert-AreUnique less x ys h u)
  | inr e ↦ rw (e, insert) ((p, h), (g, u))
]

sort-AreUnique :
    (less : NodeInfo → NodeInfo → Bool) (l : List NodeInfo) → AreUnique l → AreUnique (sort less l)
unfolding sort
sort-AreUnique less [] u = tt
sort-AreUnique less (x ∷ xs) (h, u) =
    insert-AreUnique less x (sort less xs) (All-sort less (λ m. m.id ≢ x.id) xs h)
      (sort-AreUnique less xs u)

take-AreUnique : (k : ℕ) (l : List NodeInfo) → AreUnique l → AreUnique (take k l)
take-AreUnique ℕ.zero l u = tt
take-AreUnique (suc k) [] u = tt
take-AreUnique (suc k) (x ∷ xs) (h, u) = (All-take (λ m. m.id ≢ x.id) k xs h, take-AreUnique k xs u)

-- No endpoint stands twice.
abbrev pub AreDistinct : List PeerEndpoint → Type 0
AreDistinct [] = Unit
AreDistinct (p ∷ ps) = All (λ q. q ≢ p) ps × AreDistinct ps

abbrev pub endpoints : List NodeInfo → List PeerEndpoint
endpoints = map (λ n. n.endpoint)

All-endpoints :
    (P : PeerEndpoint → Type 0) (l : List NodeInfo)
    → All (λ n. P n.endpoint) l
    → All P (endpoints l)
All-endpoints P [] h = tt
All-endpoints P (n ∷ ns) (p, h) = (p, All-endpoints P ns h)

module _ (sha : Sha256) where
  -- The node's identifier is that of its endpoint.
  abbrev pub IsNamed : NodeInfo → Type 0
  IsNamed n = make_node_id sha n.endpoint ≡ some n.id

  put_node-IsNamed :
      (node : NodeInfo) (ns : List NodeInfo)
      → IsNamed node
      → All IsNamed ns
      → All IsNamed (put_node node ns)
  unfolding put_node
  put_node-IsNamed node [] p h = (p, tt)
  put_node-IsNamed node (n ∷ ns) p (q, h) = elim (bytes_discrete n.id node.id) [
    | yes e ↦ rw (if_pos (bytes_discrete n.id node.id) e) (p ∙ ap some (sym e), h)
    | no e ↦ rw (if_neg (bytes_discrete n.id node.id) e) (q, put_node-IsNamed node ns p h)
  ]

  put_node-endpoint :
      (P : PeerEndpoint → Type 0) (node : NodeInfo) (ns : List NodeInfo)
      → P node.endpoint
      → All (λ n. P n.endpoint) ns
      → All (λ n. P n.endpoint) (put_node node ns)
  unfolding put_node
  put_node-endpoint P node [] p h = (p, tt)
  put_node-endpoint P node (n ∷ ns) p (q, h) = elim (bytes_discrete n.id node.id) [
    | yes e ↦ rw (if_pos (bytes_discrete n.id node.id) e) (p, h)
    | no e ↦ rw (if_neg (bytes_discrete n.id node.id) e) (q, put_node-endpoint P node ns p h)
  ]

  -- A table that was filled with peers that have a property.
  pub record IsFilled (P : PeerEndpoint → Type 0) (t : RoutingTable) : Type 0 where
    pub valid : IsValid t
    pub named : All IsNamed t.nodes
    pub peers : All (λ n. P n.endpoint) t.nodes

  add_node-IsFilled :
      (P : PeerEndpoint → Type 0) (t : RoutingTable) (node : NodeInfo)
      → IsNamed node
      → P node.endpoint
      → IsFilled P t
      → IsFilled P (add_node t node)
  unfolding add_node
  add_node-IsFilled P t node name p f = elim (bytes_discrete node.id t.self_id) [
    | yes e ↦ rw (if_pos (bytes_discrete node.id t.self_id) e) f
    | no e ↦ rw (if_neg (bytes_discrete node.id t.self_id) e) (record {
      valid = rw (if_neg (bytes_discrete node.id t.self_id) e) at (add_node-IsValid t node f.valid);
      named = put_node-IsNamed node t.nodes name f.named;
      peers = put_node-endpoint P node t.nodes p f.peers;
    })
  ]

  add_peers-IsFilled :
      (P : PeerEndpoint → Type 0) (peers : List PeerEndpoint) (t : RoutingTable)
      → All P peers
      → IsFilled P t
      → (u : RoutingTable) × (add_peers sha t peers ≡ some u) × IsFilled P u
  unfolding add_peers
  add_peers-IsFilled P [] t h f = (t, refl, f)
  add_peers-IsFilled P (p ∷ peers) t (q, h) f =
      let e = make_node_id_lem sha p in
      rw e (add_peers-IsFilled P peers _ h (add_node-IsFilled P t _ e q f))

  -- The constructor never throws. Its table has no double, not the node itself, every node under the
  -- identifier of its endpoint, and only
  -- endpoints with a property that all those passed in have.
  pub create_total :
      (P : PeerEndpoint → Type 0) (peers : List PeerEndpoint)
      → All P peers
      → (d : DhtNode) × (create sha peers ≡ some d) × IsFilled P d.table
  unfolding create
  create_total P peers h =
      let e = make_key_id_lem sha (codes "client") in
      let self : KademliaId = take id_size (sha.digest (codes "client")) in
      let start : IsFilled P (empty self) = record {
        valid = record { unique = tt; not_self = tt };
        named = tt;
        peers = tt;
      } in
      let (table, made, f) = add_peers-IsFilled P peers (empty self) h start in
      (record { self_id = self; table = table }, rw (e, made), f)

  named_distinct :
      (n : NodeInfo) (ns : List NodeInfo)
      → IsNamed n
      → All IsNamed ns
      → All (λ m. m.id ≢ n.id) ns
      → All (λ m. m.endpoint ≢ n.endpoint) ns
  named_distinct n [] p h u = tt
  named_distinct n (m ∷ ns) p (q, h) (ne, u) = (
    (λ e.
        let same = sym q ∙ ap (make_node_id sha) e ∙ p in
        let ids : m.id ≡ n.id = cc same in ne ids),
    named_distinct n ns p h u,
  )

  AreDistinct-endpoints :
      (ns : List NodeInfo) → All IsNamed ns → AreUnique ns → AreDistinct (endpoints ns)
  AreDistinct-endpoints [] h u = tt
  AreDistinct-endpoints (n ∷ ns) (p, h) (g, u) = (
    All-endpoints (λ q. q ≢ n.endpoint) ns (named_distinct n ns p h g),
    AreDistinct-endpoints ns h u,
  )

  targets_lem :
      (P : PeerEndpoint → Type 0) (t : RoutingTable) (target : KademliaId) (k : ℕ)
      → IsFilled P t
      → AreDistinct (endpoints (closest_nodes t target k))
        × All P (endpoints (closest_nodes t target k))
  targets_lem P t target k f =
      let less = nearer target in
      rw (closest_nodes-take t target k) (
        AreDistinct-endpoints (take k (sort less t.nodes))
            (All-take IsNamed k _ (All-sort less IsNamed t.nodes f.named))
            (take-AreUnique k _ (sort-AreUnique less t.nodes f.valid.unique)),
        All-endpoints P (take k (sort less t.nodes))
            (All-take (λ n. P n.endpoint) k _ (All-sort less (λ n. P n.endpoint) t.nodes f.peers)),
      )

  -- On a node whose table was filled with peers that have a property `store` never throws: it returns as many endpoints as
  -- replicas are asked for, at least one and at most all known nodes, all of them different and among
  -- the peers.
  pub store_lem :
      (P : PeerEndpoint → Type 0) (d : DhtNode) (key : Bytes) (replicas : ℤ)
      → IsFilled P d.table
      → (targets : List PeerEndpoint) × (store sha d key replicas ≡ some targets)
        × (length targets ≡ min (at_least_one replicas) (length d.table.nodes))
        × AreDistinct targets
        × All P targets
  unfolding store
  store_lem P d key replicas f =
      let n = length d.table.nodes in
      let k = if ltb n (at_least_one replicas) then n else at_least_one replicas in
      let id : KademliaId = take id_size (sha.digest key) in
      let (distinct, among) = targets_lem P d.table id k f in
      let size = (closest_nodes_lem d.table id k).0 in
      elim (Bool-cases (n == 0)) [
        | inl none_known ↦ ([], rw none_known, ground arith, tt, tt)
        | inr some_known ↦ (
          endpoints (closest_nodes d.table id k),
          rw (some_known, make_key_id_lem sha key),
          length-map (λ m. m.endpoint) (closest_nodes d.table id k) ∙ ground (arith, size),
          distinct,
          among,
        )
      ]

-- `findValue` asks the peers that `store` writes to.
pub find_value-store :
    (sha : Sha256) (d : DhtNode) (key : Bytes) (replicas : ℤ)
    → find_value sha d key replicas ≡ store sha d key replicas
unfolding find_value
find_value-store sha d key replicas = refl
