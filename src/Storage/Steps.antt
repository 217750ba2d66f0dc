-- ===== src/Storage/Steps.antt =====
-- The parts of the methods keep the invariant.
use s2_decentralised_storage.Prelude.{
  ℕ, ◌+◌, ◌≤◌, ◌<◌, ◌≡◌, ◌≢◌, sym, some, Bytes, length, lookup, bytes_discrete, arith, inl, inr,
  ◌∙◌, Option-cases, if_pos, if_neg,
}
use s2_decentralised_storage.Prelude.Assoc.{
  assign, remove, Distinct, lookup-assign, lookup-remove_ne, lookup-remove_self, assign-Distinct,
  remove-Distinct,
}
use s2_decentralised_storage.Cpp.Decimal.{u64_mod}
use s2_decentralised_storage.FileSystem.{
  FileSystem, read_file, write_file, read_file-write_file, read_file-remove_file,
}
use s2_decentralised_storage.Storage.{
  wrap, ChunkMeta, Metas, StorageManager, chunk_path, meta_path, persist_metadata, or_else,
  metadata_text, evict, touch, touch_found,
}
use s2_decentralised_storage.Storage.Totals.{total_size-assign_old, total_size-remove}
use s2_decentralised_storage.Storage.Paths.{chunk_path-injective, meta_path-ne-chunk_path}
use s2_decentralised_storage.Storage.Invariant.{IsStored, IsStamped, IsValid}

-- Writing the metadata file leaves the chunk files alone.
pub read_file-persist_metadata :
    (s : StorageManager) (h : Bytes)
    → read_file (persist_metadata s).disk (chunk_path s.base_dir h)
      ≡ read_file s.disk (chunk_path s.base_dir h)
unfolding persist_metadata or_else
read_file-persist_metadata s h =
    let text = metadata_text s.access_counter s.used_bytes s.meta in
    elim (Option-cases (write_file s.disk (meta_path s.base_dir) text)) [
      | inl e ↦ rw (e, or_else)
      | inr (fs, e) ↦
          rw (e, or_else)
            (rw (
              read_file-write_file s.disk (meta_path s.base_dir) (chunk_path s.base_dir h) text e,
              if_neg (bytes_discrete _ _) (λ p. meta_path-ne-chunk_path s.base_dir h (sym p)),
            ))
    ]

pub persist_metadata-IsValid : (s : StorageManager) → IsValid s → IsValid (persist_metadata s)
unfolding persist_metadata
persist_metadata-IsValid s v = record {
  distinct = v.distinct;
  accounted = v.accounted;
  bounded = v.bounded;
  stamped = v.stamped;
  stored = λ id m h.
      let (bytes, e, size) = v.stored id m h in (bytes, read_file-persist_metadata s id ∙ e, size);
}

-- What is found after an entry is erased was there before, under another key.
pub lookup-remove-some :
    (id j : Bytes) (m : ChunkMeta) (ms : Metas)
    → Distinct bytes_discrete ms
    → lookup bytes_discrete j (remove bytes_discrete id ms) ≡ some m
    → (j ≢ id) × (lookup bytes_discrete j ms ≡ some m)
lookup-remove-some id j m ms d h = elim (bytes_discrete j id) [
  | yes p ↦ absurd (cc (lookup-remove_self bytes_discrete id ms d, p))
  | no p ↦ (p, sym (lookup-remove_ne bytes_discrete id j ms p) ∙ h)
]

pub evict-IsValid :
    (s : StorageManager) (id : Bytes) (m : ChunkMeta)
    → IsValid s
    → lookup bytes_discrete id s.meta ≡ some m
    → IsValid (evict s (id, m))
unfolding evict
evict-IsValid s id m v h = record {
  distinct = remove-Distinct bytes_discrete id s.meta v.distinct;
  accounted = omega (arith, total_size-remove id m s.meta h, v.accounted, v.bounded);
  bounded = omega arith;
  stamped = λ j w k. v.stamped j w (lookup-remove-some id j w s.meta v.distinct k).1;
  stored = λ j w k.
      let (ne, found) = lookup-remove-some id j w s.meta v.distinct k in
      let (bytes, e, size) = v.stored j w found in
      (
        bytes,
        read_file-remove_file s.disk (chunk_path s.base_dir id) (chunk_path s.base_dir j)
              (λ p. ne (chunk_path-injective s.base_dir j id p))
            ∙ e,
        size,
      );
}

module _ (id : Bytes) (m : ChunkMeta) (ms : Metas) where
  pub assign-IsStamped :
      (old new : ℕ)
      → old ≤ new
      → m.last_access ≤ new
      → IsStamped old ms
      → IsStamped new (assign bytes_discrete id m ms)
  assign-IsStamped old new le fresh st j w k =
      ground (arith, lookup-assign bytes_discrete id j m ms, st j w)

  -- The entry has its file, and the other entries keep theirs.
  pub assign-IsStored :
      (base bytes : Bytes) (fs : FileSystem)
      → read_file fs (chunk_path base id) ≡ some bytes
      → length bytes ≡ m.size
      → ((j : Bytes) (w : ChunkMeta)
          → j ≢ id
          → lookup bytes_discrete j ms ≡ some w
          → (b : Bytes) × (read_file fs (chunk_path base j) ≡ some b) × (length b ≡ w.size))
      → IsStored base (assign bytes_discrete id m ms) fs
  assign-IsStored base bytes fs file size others j w k = elim (bytes_discrete j id) [
    | yes p ↦
        let e = lookup-assign bytes_discrete id j m ms ∙ if_pos (bytes_discrete j id) p _ _ in
        (bytes, rw p file, ground (arith, e))
    | no p ↦
        let e = lookup-assign bytes_discrete id j m ms ∙ if_neg (bytes_discrete j id) p _ _ in
        others j w p (sym e ∙ k)
  ]

-- A use of a chunk changes its stamp alone.
pub touch-IsValid :
    (s : StorageManager) (id : Bytes)
    → s.access_counter + 1 < u64_mod
    → IsValid s
    → IsValid (touch s id)
unfolding touch touch_found
touch-IsValid s id room v = elim (Option-cases (lookup bytes_discrete id s.meta)) [
  | inl e ↦ rw (e, touch_found) v
  | inr (m, e) ↦
      let stamp = wrap (s.access_counter + 1) in
      let new : ChunkMeta = record m { last_access = stamp } in
      let (bytes, file, size) = v.stored id m e in
      rw (e, touch_found)
        (record {
          distinct = assign-Distinct bytes_discrete id new s.meta v.distinct;
          accounted = omega (arith, total_size-assign_old id new m s.meta e, v.accounted);
          bounded = v.bounded;
          stamped =
              assign-IsStamped id new s.meta s.access_counter stamp (omega arith) (omega arith)
                v.stamped;
          stored =
              assign-IsStored id new s.meta s.base_dir bytes s.disk file size
                (λ j w ne k. v.stored j w k);
        })
]
