-- ===== src/Dht/RoutingTable/Closest.antt =====
-- `closestNodes` returns nearest nodes.
use mathlib.Core.List.{Perm}
use s2_decentralised_storage.Prelude.{
  ℕ, ◌≡◌, refl, sym, false, List, [], ◌∷◌, ◌++◌, length, take, drop, take-append-drop,
  take_of_length-le, length-take, min, All, arith, ltb, ◌==◌, if◌then◌else◌, Bool-cases, inl, inr,
}
use s2_decentralised_storage.Cpp.Sort.{
  sort, sort-perm, sort-IsSorted, length-sort, IsSorted, IsSorted-split,
}
use s2_decentralised_storage.Dht.Id.{KademliaId, closer_to, xor_distance}
use s2_decentralised_storage.Dht.Id.Metric.{lex_lt_asymm, lex_lt_trans}
use s2_decentralised_storage.Dht.RoutingTable.{NodeInfo, RoutingTable, nearer, closest_nodes}

nil_of_length : (l : List NodeInfo) → length l ≡ 0 → l ≡ []
nil_of_length [] e = refl
nil_of_length (n ∷ ns) e = absurd (omega arith)

take-nil : (k : ℕ) → take {A = NodeInfo} k [] ≡ []
take-nil k = take_of_length-le k [] (omega arith)

cut_lem :
    (l : List NodeInfo) (k n : ℕ)
    → length l ≡ n
    → (if n == 0 then [] else if k == 0 then [] else if ltb k (length l) then take k l else l)
      ≡ take k l
cut_lem l k n e = elim (Bool-cases (n == 0)) [
  | inl p ↦ rw (p, nil_of_length l (ground arith)) (sym (take-nil k))
  | inr p ↦ elim (Bool-cases (k == 0)) [
    | inl q ↦ let z : k ≡ 0 = ground arith in rw (p, z)
    | inr q ↦ elim (Bool-cases (ltb k (length l))) [
      | inl r ↦ rw (p, q, r)
      | inr r ↦ rw (p, q, r) (sym (take_of_length-le k l (ground arith)))
    ]
  ]
]

-- The tests for an empty table, for zero and for the length make no difference.
pub closest_nodes-take :
    (t : RoutingTable) (target : KademliaId) (k : ℕ)
    → closest_nodes t target k ≡ take k (sort (nearer target) t.nodes)
unfolding closest_nodes
closest_nodes-take t target k =
    cut_lem (sort (nearer target) t.nodes) k (length t.nodes) (length-sort (nearer target) t.nodes)

sorted_lem :
    (target : KademliaId) (ns : List NodeInfo) → IsSorted (nearer target) (sort (nearer target) ns)
unfolding closer_to
sorted_lem target ns =
    sort-IsSorted (nearer target)
      (λ a b. lex_lt_asymm (xor_distance a.id target) (xor_distance b.id target))
      (λ a b c.
        lex_lt_trans (xor_distance a.id target) (xor_distance b.id target)
          (xor_distance c.id target))
      ns

-- For every table, target and `k` the result of `closestNodes` is sorted by the distance to the target, holds `k` nodes or all, and together with
-- some others makes up the table; none of those is closer to the target than any node of the result.
pub closest_nodes_lem :
    (t : RoutingTable) (target : KademliaId) (k : ℕ)
    → (length (closest_nodes t target k) ≡ min k (length t.nodes))
      × IsSorted (nearer target) (closest_nodes t target k)
      × ((others : List NodeInfo) × Perm (closest_nodes t target k ++ others) t.nodes
          × All
              (λ n. All (λ m. closer_to m.id n.id target ≡ false) others)
              (closest_nodes t target k))
closest_nodes_lem t target k =
    let l = sort (nearer target) t.nodes in
    let whole = take-append-drop k l in
    let (sorted, apart) =
      IsSorted-split (nearer target) (take k l) (drop k l) (rw whole (sorted_lem target t.nodes)) in
    rw (closest_nodes-take t target k) (
      omega (arith, length-take k l, length-sort (nearer target) t.nodes),
      sorted,
      (drop k l, rw whole (sort-perm (nearer target) t.nodes), apart),
    )
