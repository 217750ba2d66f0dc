-- ===== src/Tracker/Locations.antt =====
-- What WHERE answers, and that pruning does not change it.
use s2_decentralised_storage.Prelude.{
  ℕ, ◌≡◌, refl, none, List, [], ◌∷◌, Bytes, bytes_discrete, lookup, arith,
}
use s2_decentralised_storage.Prelude.Assoc.{Distinct}
use s2_decentralised_storage.Tracker.{
  ChunkIndex, Tracker, prune_stale, without_dead, prune_stale_and_cleanup,
}

absent_without :
    (dead : List Bytes) (index : ChunkIndex) (id : Bytes)
    → lookup bytes_discrete id index ≡ none
    → lookup bytes_discrete id (without_dead dead index) ≡ none
unfolding without_dead lookup
absent_without dead [] id h = refl
absent_without dead ((j, locs) ∷ index) id h = ground (arith, absent_without dead index id)

pub without_dead-Distinct :
    (dead : List Bytes) (index : ChunkIndex)
    → Distinct bytes_discrete index
    → Distinct bytes_discrete (without_dead dead index)
unfolding without_dead
without_dead-Distinct dead [] d = tt
without_dead-Distinct dead ((j, locs) ∷ index) (absent, d) =
    (absent_without dead index j absent, without_dead-Distinct dead index d)

pub peers-prune :
    (now : ℕ) (t : Tracker) → (prune_stale_and_cleanup now t).peers ≡ prune_stale now t.peers
unfolding prune_stale_and_cleanup
peers-prune now t = ground arith
