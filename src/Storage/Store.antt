-- ===== src/Storage/Store.antt =====
-- `storeChunk`: what it leaves behind on success.
use s2_decentralised_storage.Prelude.{
  ℕ, ◌+◌, ◌≤◌, ◌<◌, ◌≡◌, ◌≢◌, refl, sym, ap, Option, none, some, [], ◌∷◌, ◌++◌, Bytes, codes,
  length, length-append, lookup, bytes_discrete, arith, inl, inr, ◌∙◌, Option-cases, Bool-cases,
  if_pos, if_neg, ◌==◌, ◌⊎◌,
}
use s2_decentralised_storage.Prelude.Assoc.{lookup-assign, assign-Distinct}
use s2_decentralised_storage.Cpp.Decimal.{u64_mod}
use s2_decentralised_storage.FileSystem.{
  FileSystem, read_file, write_file, rename_file, read_file-write_file, read_file-rename_file,
}
use s2_decentralised_storage.Storage.{
  wrap, ChunkMeta, StorageManager, Result, ok, chunk_path, temp_path, enforce_limit, record_chunk,
  finish_write, finish_rename, without_size, store_chunk, persist_metadata,
}
use s2_decentralised_storage.Storage.Totals.{
  total_size, total_size-assign_new, total_size-assign_old, size-le-total_size,
}
use s2_decentralised_storage.Storage.Paths.{chunk_path-injective, temp_path-chunk_path}
use s2_decentralised_storage.Storage.Invariant.{IsValid}
use s2_decentralised_storage.Storage.Steps.{
  persist_metadata-IsValid, read_file-persist_metadata, assign-IsStamped, assign-IsStored,
}
use s2_decentralised_storage.Storage.Limit.{
  IsNewest, evict_loop-IsValid, evict_loop-IsNewest, evict_loop-le,
}

-- `enforceLimit` keeps the invariant.
pub enforce_limit-IsValid : (s : StorageManager) → IsValid s → IsValid (enforce_limit s)
unfolding enforce_limit
enforce_limit-IsValid s v = elim (Bool-cases (s.max_bytes == 0)) [
  | inl off ↦ rw (off, enforce_limit) v
  | inr on ↦
      rw (on, enforce_limit) (persist_metadata-IsValid _ (evict_loop-IsValid (length s.meta) s v))
]

-- With a limit, the bytes in use are under it afterwards.
pub enforce_limit-le :
    (s : StorageManager) → IsValid s → s.max_bytes ≢ 0 → (enforce_limit s).used_bytes ≤ s.max_bytes
unfolding enforce_limit persist_metadata
enforce_limit-le s v on = elim (Bool-cases (s.max_bytes == 0)) [
  | inl off ↦ absurd (on (ground arith))
  | inr e ↦ rw (e, enforce_limit) (evict_loop-le (length s.meta) s v (omega arith))
]

abbrev pub Fits : StorageManager → ℕ → Type 0
Fits s size = (s.max_bytes ≡ 0) ⊎ (size ≤ s.max_bytes)

-- The room that the counters need so that they do not wrap around, and no chunk is named like the
-- temporary file.
pub record HasRoom (s : StorageManager) (hash : Bytes) (size : ℕ) : Type 0 where
  pub counter : s.access_counter + 1 < u64_mod
  pub bytes : s.used_bytes + size < u64_mod
  pub temp : lookup bytes_discrete (hash ++ codes ".tmp") s.meta ≡ none

append-ne_self : (h : Bytes) → h ≢ h ++ codes ".tmp"
append-ne_self h e = omega (arith, ap length e, length-append h (codes ".tmp"))

-- Calls that return normally have passed every step.
finish_rename_inv :
    (s t : StorageManager) (hash : Bytes) (size : ℕ) (written : FileSystem) (r : Option FileSystem)
    → finish_rename s hash size written r ≡ (t, ok tt)
    → (placed : FileSystem) × (r ≡ some placed)
      × (t ≡ enforce_limit (record_chunk (record s { disk = placed }) hash size))
unfolding finish_rename
finish_rename_inv s t hash size written none h = ground arith
finish_rename_inv s t hash size written (some placed) h =
    (placed, refl, sym (ap (λ (r : StorageManager × Result (Unit {0})). r.0) h))

finish_write_inv :
    (s t : StorageManager) (hash : Bytes) (size : ℕ) (w : Option FileSystem)
    → finish_write s hash size w ≡ (t, ok tt)
    → (written : FileSystem) × (placed : FileSystem) × (w ≡ some written)
      × (rename_file written (temp_path s.base_dir hash) (chunk_path s.base_dir hash) ≡ some placed)
      × (t ≡ enforce_limit (record_chunk (record s { disk = placed }) hash size))
unfolding finish_write
finish_write_inv s t hash size none h = ground arith
finish_write_inv s t hash size (some written) h =
    let (placed, e, f) = finish_rename_inv s t hash size written _ h in
    (written, placed, refl, e, f)

module _ (s : StorageManager) (hash data_bytes : Bytes) where
  abbrev pub target : Bytes
  target = chunk_path s.base_dir hash

  -- The file system after the temporary file was written and renamed.
  pub record IsPlaced (placed : FileSystem) : Type 0 where
    pub here : read_file placed (chunk_path s.base_dir hash) ≡ some data_bytes
    pub others :
        (j : Bytes)
        → j ≢ hash
        → j ≢ hash ++ codes ".tmp"
        → read_file placed (chunk_path s.base_dir j) ≡ read_file s.disk (chunk_path s.base_dir j)

  placed_lem :
      (written placed : FileSystem)
      → write_file s.disk (temp_path s.base_dir hash) data_bytes ≡ some written
      → rename_file written (temp_path s.base_dir hash) (chunk_path s.base_dir hash) ≡ some placed
      → IsPlaced placed
  placed_lem written placed w r =
      let temp = temp_path s.base_dir hash in
      let apart =
        λ (j : Bytes) (ne : j ≢ hash ++ codes ".tmp") (e : chunk_path s.base_dir j ≡ temp).
          ne (chunk_path-injective s.base_dir j _ (e ∙ temp_path-chunk_path s.base_dir hash)) in
      let full =
        read_file-write_file s.disk temp temp data_bytes w
        ∙ if_pos (bytes_discrete temp temp) refl _ _ in
      record {
        here =
            read_file-rename_file written temp target target data_bytes full r
              (apart hash (append-ne_self hash))
            ∙ if_pos (bytes_discrete target target) refl _ _;
        others = λ j ne net.
            let p = chunk_path s.base_dir j in
            read_file-rename_file written temp target p data_bytes full r (apart j net)
            ∙ if_neg (bytes_discrete p target) (λ e. ne (chunk_path-injective s.base_dir j hash e))
                _ _
            ∙ read_file-write_file s.disk temp p data_bytes w
            ∙ if_neg (bytes_discrete p temp) (apart j net) _ _;
      }

  -- The state that goes into `enforceLimit`.
  abbrev pub recorded : FileSystem → StorageManager
  recorded placed =
      record_chunk
        (record s {
          used_bytes = without_size s.used_bytes (lookup bytes_discrete hash s.meta);
          disk = placed;
        })
        hash (length data_bytes)

  abbrev pub new_meta : ChunkMeta
  new_meta = record { size = length data_bytes; last_access = wrap (s.access_counter + 1) }

  recorded-accounted :
      (placed : FileSystem)
      → IsValid s
      → HasRoom s hash (length data_bytes)
      → (recorded placed).used_bytes ≡ total_size (recorded placed).meta
  unfolding record_chunk without_size
  recorded-accounted placed v room = elim (Option-cases (lookup bytes_discrete hash s.meta)) [
    | inl e ↦
        rw (e, without_size)
          (omega (arith, total_size-assign_new hash new_meta s.meta e, v.accounted, room.bytes))
    | inr (old, e) ↦
        rw (e, without_size)
          (ground (
            arith,
            total_size-assign_old hash new_meta old s.meta e,
            size-le-total_size hash old s.meta e,
            v.accounted,
            room.bytes,
          ))
  ]

  pub recorded-IsValid :
      (placed : FileSystem)
      → IsPlaced placed
      → IsValid s
      → HasRoom s hash (length data_bytes)
      → IsValid (recorded placed)
  unfolding record_chunk
  recorded-IsValid placed p v room = record {
    distinct = assign-Distinct bytes_discrete hash new_meta s.meta v.distinct;
    accounted = recorded-accounted placed v room;
    bounded = omega arith;
    stamped =
        assign-IsStamped hash new_meta s.meta s.access_counter (wrap (s.access_counter + 1))
          (omega (arith, room.counter)) (omega arith) v.stamped;
    stored =
        assign-IsStored hash new_meta s.meta s.base_dir data_bytes placed p.here refl λ j w ne k.
          let (b, e, size) = v.stored j w k in
          (b, p.others j ne (λ q. cc (room.temp, k, q)) ∙ e, size);
  }

  recorded-IsNewest :
      (placed : FileSystem)
      → IsPlaced placed
      → IsValid s
      → HasRoom s hash (length data_bytes)
      → length data_bytes ≤ s.max_bytes
      → IsNewest hash new_meta data_bytes (recorded placed)
  unfolding record_chunk
  recorded-IsNewest placed p v room fits = record {
    valid = recorded-IsValid placed p v room;
    found =
        lookup-assign bytes_discrete hash hash new_meta s.meta
        ∙ if_pos (bytes_discrete hash hash) refl _ _;
    newer = λ j w k ne.
        let e =
          lookup-assign bytes_discrete hash j new_meta s.meta
          ∙ if_neg (bytes_discrete j hash) ne _ _ in
        omega (arith, v.stamped j w (sym e ∙ k), room.counter);
    fits = fits;
    file = p.here;
  }

  -- After `enforceLimit` the chunk is in the map with its size, and its file holds its bytes.
  pub record IsKept (t : StorageManager) : Type 0 where
    pub valid : IsValid t
    pub found : lookup bytes_discrete hash t.meta ≡ some new_meta
    pub file : read_file t.disk (chunk_path t.base_dir hash) ≡ some data_bytes

  IsKept-of_IsNewest :
      (t : StorageManager) → IsNewest hash new_meta data_bytes t → IsKept (persist_metadata t)
  unfolding persist_metadata
  IsKept-of_IsNewest t n = record {
    valid = persist_metadata-IsValid t n.valid;
    found = n.found;
    file = read_file-persist_metadata t hash ∙ n.file;
  }

  pub enforced-IsKept :
      (placed : FileSystem)
      → IsPlaced placed
      → IsValid s
      → HasRoom s hash (length data_bytes)
      → Fits s (length data_bytes)
      → IsKept (enforce_limit (recorded placed))
  unfolding enforce_limit record_chunk
  enforced-IsKept placed p v room fits = elim (Bool-cases (s.max_bytes == 0)) [
    | inl off ↦
        rw (off, enforce_limit)
          (record {
            valid = recorded-IsValid placed p v room;
            found =
                lookup-assign bytes_discrete hash hash new_meta s.meta
                ∙ if_pos (bytes_discrete hash hash) refl _ _;
            file = p.here;
          })
    | inr on ↦
        let le : length data_bytes ≤ s.max_bytes = ground arith in
        rw (on, enforce_limit)
          (IsKept-of_IsNewest _ (
            evict_loop-IsNewest hash new_meta data_bytes _ (recorded placed)
              (recorded-IsNewest placed p v room le)))
  ]

-- A call that returns normally has placed the file, and has recorded the chunk.
pub store_chunk_inv :
    (s : StorageManager) (hash data_bytes : Bytes) (t : StorageManager)
    → store_chunk s hash data_bytes ≡ (t, ok tt)
    → (placed : FileSystem) × IsPlaced s hash data_bytes placed
      × (t ≡ enforce_limit (recorded s hash data_bytes placed))
unfolding store_chunk
store_chunk_inv s [] data_bytes t h = ground arith
store_chunk_inv s (c ∷ hash) data_bytes t h =
    let (written, placed, w, r, e) = finish_write_inv _ t (c ∷ hash) _ _ h in
    (placed, placed_lem s (c ∷ hash) data_bytes written placed w r, e)
