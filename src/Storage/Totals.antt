-- ===== src/Storage/Totals.antt =====
-- Sums and victims over the map of a storage manager.
use s2_decentralised_storage.Prelude.{
  ℕ, ◌+◌, ◌≤◌, ◌<◌, ◌≡◌, ◌⊎◌, inl, refl, none, some, [], ◌∷◌, Bytes, length, lookup, bytes_discrete,
  ltb, if◌then◌else◌, arith, if_pos,
}
use s2_decentralised_storage.Prelude.Assoc.{assign, remove, Distinct}
use s2_decentralised_storage.Storage.{ChunkMeta, Metas, oldest, victim}

-- The bytes of all chunks.
unfoldable pub total_size : Metas → ℕ
total_size [] = 0
total_size ((id, m) ∷ ms) = m.size + total_size ms

pub total_size-assign_new :
    (id : Bytes) (m : ChunkMeta) (ms : Metas)
    → lookup bytes_discrete id ms ≡ none
    → total_size (assign bytes_discrete id m ms) ≡ total_size ms + m.size
unfolding total_size assign lookup
total_size-assign_new id m [] h = omega arith
total_size-assign_new id m ((j, w) ∷ ms) h = ground (arith, total_size-assign_new id m ms)

pub total_size-assign_old :
    (id : Bytes) (m old : ChunkMeta) (ms : Metas)
    → lookup bytes_discrete id ms ≡ some old
    → total_size (assign bytes_discrete id m ms) + old.size ≡ total_size ms + m.size
unfolding total_size assign lookup
total_size-assign_old id m old [] h = cc
total_size-assign_old id m old ((j, w) ∷ ms) h = ground (arith, total_size-assign_old id m old ms)

pub total_size-remove :
    (id : Bytes) (old : ChunkMeta) (ms : Metas)
    → lookup bytes_discrete id ms ≡ some old
    → total_size (remove bytes_discrete id ms) + old.size ≡ total_size ms
unfolding total_size remove lookup
total_size-remove id old [] h = cc
total_size-remove id old ((j, w) ∷ ms) h = ground (arith, total_size-remove id old ms)

pub remove_absent :
    (id : Bytes) (ms : Metas)
    → lookup bytes_discrete id ms ≡ none
    → remove bytes_discrete id ms ≡ ms
unfolding remove lookup
remove_absent id [] h = refl
remove_absent id ((j, w) ∷ ms) h = ground (arith, remove_absent id ms)

pub length-remove :
    (id : Bytes) (old : ChunkMeta) (ms : Metas)
    → lookup bytes_discrete id ms ≡ some old
    → length (remove bytes_discrete id ms) + 1 ≡ length ms
unfolding remove lookup
length-remove id old [] h = cc
length-remove id old ((j, w) ∷ ms) h = ground (arith, length-remove id old ms)

pub size-le-total_size :
    (id : Bytes) (old : ChunkMeta) (ms : Metas)
    → lookup bytes_discrete id ms ≡ some old
    → old.size ≤ total_size ms
size-le-total_size id old ms h = omega (arith, total_size-remove id old ms h)

oldest_cases :
    (best : Bytes × ChunkMeta) (ms : Metas)
    → Distinct bytes_discrete ms
    → (oldest best ms ≡ best)
      ⊎ (lookup bytes_discrete (oldest best ms).0 ms ≡ some (oldest best ms).1)
unfolding oldest lookup
oldest_cases best [] d = inl refl
oldest_cases best (e ∷ ms) d =
    ground (arith, oldest_cases (if ltb e.1.last_access best.1.last_access then e else best) ms d.1)

-- The victim is an entry of the map.
pub victim-lookup :
    (ms : Metas) (id : Bytes) (m : ChunkMeta)
    → Distinct bytes_discrete ms
    → victim ms ≡ some (id, m)
    → lookup bytes_discrete id ms ≡ some m
unfolding victim lookup
victim-lookup [] id m d h = cc
victim-lookup (e ∷ ms) id m d h = ground (arith, oldest_cases e ms d.1)

oldest-le_best :
    (best : Bytes × ChunkMeta) (ms : Metas) → (oldest best ms).1.last_access ≤ best.1.last_access
unfolding oldest
oldest-le_best best [] = omega arith
oldest-le_best best (e ∷ ms) =
    ground (arith, oldest-le_best (if ltb e.1.last_access best.1.last_access then e else best) ms)

oldest-le :
    (best : Bytes × ChunkMeta) (ms : Metas) (id : Bytes) (m : ChunkMeta)
    → lookup bytes_discrete id ms ≡ some m
    → (oldest best ms).1.last_access ≤ m.last_access
unfolding oldest lookup
oldest-le best [] id m h = cc
oldest-le best (e ∷ ms) id m h = ground (
  arith,
  oldest-le (if ltb e.1.last_access best.1.last_access then e else best) ms id m,
  oldest-le_best (if ltb e.1.last_access best.1.last_access then e else best) ms,
)

-- No entry of the map was used before the victim.
pub victim-le :
    (ms : Metas) (vid id : Bytes) (v m : ChunkMeta)
    → victim ms ≡ some (vid, v)
    → lookup bytes_discrete id ms ≡ some m
    → v.last_access ≤ m.last_access
unfolding victim lookup
victim-le [] vid id v m h e = cc
victim-le (e ∷ ms) vid id v m h k = ground (arith, oldest-le_best e ms, oldest-le e ms id m)

-- There is none only in the empty map.
pub victim-none : (ms : Metas) → victim ms ≡ none → ms ≡ []
unfolding victim
victim-none [] h = refl
victim-none (e ∷ ms) h = cc

pub total_size_empty : (ms : Metas) → length ms ≤ 0 → total_size ms ≡ 0
unfolding total_size
total_size_empty [] h = refl
total_size_empty (e ∷ ms) h = absurd (omega arith)

-- Bytes in use belong to some entry.
pub total_size_pos :
    (ms : Metas)
    → 0 < total_size ms
    → (id : Bytes) × (m : ChunkMeta) × (lookup bytes_discrete id ms ≡ some m)
unfolding total_size lookup
total_size_pos [] h = absurd (omega arith)
total_size_pos ((id, m) ∷ ms) h = (id, m, if_pos (bytes_discrete id id) refl _ _)
