-- ===== src/Storage/Retrieval.antt =====
-- What `storeChunk`, `loadChunk` and `deleteChunk` promise to each other.
use s2_decentralised_storage.Prelude.{
  ℕ, ◌+◌, ◌≤◌, ◌<◌, ◌≡◌, Option, none, some, Bytes, length, lookup, bytes_discrete, arith, ite,
  true, false, inl, inr, ◌∙◌, Option-cases, if_pos, if_neg,
}
use s2_decentralised_storage.Prelude.Assoc.{
  remove, lookup-assign, lookup-remove_ne, lookup-remove_self, remove-Distinct,
}
use s2_decentralised_storage.Cpp.Decimal.{u64_mod}
use s2_decentralised_storage.FileSystem.{read_file, read_file-remove_file}
use s2_decentralised_storage.Storage.{
  StorageManager, ChunkMeta, ok, chunk_path, store_chunk, load_chunk, finish_load, delete_chunk,
  has_chunk, is_found, persist_metadata, touch, touch_found, without_size,
}
use s2_decentralised_storage.Storage.Totals.{
  total_size, total_size-remove, size-le-total_size, remove_absent,
}
use s2_decentralised_storage.Storage.Paths.{chunk_path-injective}
use s2_decentralised_storage.Storage.Invariant.{IsValid}
use s2_decentralised_storage.Storage.Steps.{
  persist_metadata-IsValid, touch-IsValid, lookup-remove-some,
}
use s2_decentralised_storage.Storage.Store.{
  HasRoom, store_chunk_inv, recorded-IsValid, enforce_limit-IsValid,
}

module _ (s t : StorageManager) (hash bytes : Bytes) where
  pub store_chunk-IsValid :
      IsValid s → HasRoom s hash (length bytes) → store_chunk s hash bytes ≡ (t, ok tt) → IsValid t
  store_chunk-IsValid v room h =
      let (placed, p, e) = store_chunk_inv s hash bytes t h in
      rw e (enforce_limit-IsValid _ (recorded-IsValid s hash bytes placed p v room))

touch-lookup :
    (s : StorageManager) (hash j : Bytes)
    → is_found (lookup bytes_discrete j (touch s hash).meta)
      ≡ is_found (lookup bytes_discrete j s.meta)
unfolding touch touch_found is_found
touch-lookup s hash j = elim (Option-cases (lookup bytes_discrete hash s.meta)) [
  | inl e ↦ rw (e, touch_found)
  | inr (m, e) ↦ elim (bytes_discrete j hash) [
    | yes p ↦
        rw (e, touch_found, lookup-assign bytes_discrete hash j, if_pos (bytes_discrete j hash) p)
          (rw (p, e))
    | no p ↦
        rw (e, touch_found, lookup-assign bytes_discrete hash j, if_neg (bytes_discrete j hash) p)
  ]
]

-- `loadChunk` of a well-formed manager returns the file's bytes exactly when the file is there; it
-- changes neither which chunks are there nor the bytes in use, and keeps the invariant.
pub load_chunk-IsValid :
    (s : StorageManager) (hash : Bytes)
    → s.access_counter + 1 < u64_mod
    → IsValid s
    → IsValid (load_chunk s hash).0
unfolding load_chunk finish_load
load_chunk-IsValid s hash room v =
    elim (Option-cases (read_file s.disk (chunk_path s.base_dir hash))) [
      | inl e ↦ rw (e, finish_load) v
      | inr (bytes, e) ↦
          rw (e, finish_load) (persist_metadata-IsValid _ (touch-IsValid s hash room v))
    ]

pub has_chunk-load_chunk :
    (s : StorageManager) (hash j : Bytes) → has_chunk (load_chunk s hash).0 j ≡ has_chunk s j
unfolding has_chunk load_chunk finish_load persist_metadata
has_chunk-load_chunk s hash j =
    elim (Option-cases (read_file s.disk (chunk_path s.base_dir hash))) [
      | inl e ↦ rw (e, finish_load)
      | inr (bytes, e) ↦ rw (e, finish_load) (touch-lookup s hash j)
    ]

-- A chunk that the map of a well-formed manager has can be loaded, with the size that the map says.
pub load_chunk_total :
    (s : StorageManager) (hash : Bytes)
    → IsValid s
    → has_chunk s hash ≡ true
    → (bytes : Bytes) × (m : ChunkMeta) × (lookup bytes_discrete hash s.meta ≡ some m)
      × ((load_chunk s hash).1 ≡ ok bytes)
      × (length bytes ≡ m.size)
unfolding has_chunk is_found load_chunk finish_load
load_chunk_total s hash v h = elim (Option-cases (lookup bytes_discrete hash s.meta)) [
  | inl e ↦ absurd (ground arith)
  | inr (m, e) ↦
      let (bytes, file, size) = v.stored hash m e in (bytes, m, e, rw (file, finish_load), size)
]

without_size-remove :
    (s : StorageManager) (hash : Bytes)
    → IsValid s
    → without_size s.used_bytes (lookup bytes_discrete hash s.meta)
      ≡ total_size (remove bytes_discrete hash s.meta)
unfolding without_size
without_size-remove s hash v = elim (Option-cases (lookup bytes_discrete hash s.meta)) [
  | inl e ↦ rw (e, without_size, remove_absent hash s.meta e) v.accounted
  | inr (m, e) ↦
      rw (e, without_size)
        (ground (
          arith,
          total_size-remove hash m s.meta e,
          size-le-total_size hash m s.meta e,
          v.accounted,
        ))
]

without_size-le : (used : ℕ) (m : Option ChunkMeta) → without_size used m ≤ used
unfolding without_size
without_size-le used none = omega arith
without_size-le used (some m) = ground arith

-- `deleteChunk` keeps a manager well-formed.
pub delete_chunk-IsValid :
    (s : StorageManager) (hash : Bytes) → IsValid s → IsValid (delete_chunk s hash)
unfolding delete_chunk
delete_chunk-IsValid s hash v = persist_metadata-IsValid _ (record {
  distinct = remove-Distinct bytes_discrete hash s.meta v.distinct;
  accounted = without_size-remove s hash v;
  bounded =
      omega (arith, without_size-le s.used_bytes (lookup bytes_discrete hash s.meta), v.bounded);
  stamped = λ j w k. v.stamped j w (lookup-remove-some hash j w s.meta v.distinct k).1;
  stored = λ j w k.
      let (ne, found) = lookup-remove-some hash j w s.meta v.distinct k in
      let (b, e, size) = v.stored j w found in
      (
        b,
        read_file-remove_file s.disk (chunk_path s.base_dir hash) (chunk_path s.base_dir j)
              (λ p. ne (chunk_path-injective s.base_dir j hash p))
            ∙ e,
        size,
      );
})

-- After `deleteChunk` on a well-formed manager the chunk is gone, and every other chunk is there as
-- before.
pub has_chunk-delete_chunk :
    (s : StorageManager) (hash j : Bytes)
    → IsValid s
    → has_chunk (delete_chunk s hash) j ≡ ite (bytes_discrete j hash) false (has_chunk s j)
unfolding has_chunk delete_chunk persist_metadata is_found
has_chunk-delete_chunk s hash j v = elim (bytes_discrete j hash) [
  | yes p ↦ rw (if_pos _ p, p, lookup-remove_self bytes_discrete hash s.meta v.distinct)
  | no p ↦ rw (if_neg _ p, lookup-remove_ne bytes_discrete hash j s.meta p)
]
