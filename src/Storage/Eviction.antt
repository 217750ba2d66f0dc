-- ===== src/Storage/Eviction.antt =====
-- The order of eviction, and what a write that failed leaves behind.
use s2_decentralised_storage.Prelude.{
  ℕ, ◌+◌, ◌≤◌, ◌≡◌, ◌≢◌, refl, sym, ap, none, some, ◌∷◌, Bytes, length, lookup, bytes_discrete,
  arith, inl, inr, ◌∙◌, Bool-cases, ◌==◌,
}
use s2_decentralised_storage.Prelude.Assoc.{Distinct, lookup-remove_ne, remove-Distinct}
use s2_decentralised_storage.FileSystem.{write_file}
use s2_decentralised_storage.Storage.{
  ChunkMeta, Metas, StorageManager, throw, open_failed, victim, evict, evict_loop, enforce_limit,
  set_max_bytes, persist_metadata, store_chunk, finish_write, without_size, temp_path,
}
use s2_decentralised_storage.Storage.Totals.{
  total_size, victim-lookup, victim-le, size-le-total_size,
}
use s2_decentralised_storage.Storage.Invariant.{IsValid}
use s2_decentralised_storage.Storage.Steps.{lookup-remove-some}
use s2_decentralised_storage.Storage.Limit.{evict_loop_induction}
use s2_decentralised_storage.Storage.Store.{enforce_limit-IsValid, enforce_limit-le}

-- The map after some evictions: a part of the map before, without entries that are older than one
-- that went.
pub record IsRecent (before after : Metas) : Type 0 where
  pub distinct : Distinct bytes_discrete after
  pub part :
      (j : Bytes) (w : ChunkMeta)
      → lookup bytes_discrete j after ≡ some w
      → lookup bytes_discrete j before ≡ some w
  pub recent :
      (id j : Bytes) (m w : ChunkMeta)
      → lookup bytes_discrete id before ≡ some m
      → lookup bytes_discrete id after ≡ none
      → lookup bytes_discrete j after ≡ some w
      → m.last_access ≤ w.last_access

IsRecent-refl : (ms : Metas) → Distinct bytes_discrete ms → IsRecent ms ms
IsRecent-refl ms d = record {
  distinct = d;
  part = λ j w k. k;
  recent = λ id j m w here gone k. cc (here, gone);
}

evict-IsRecent :
    (before : Metas) (s : StorageManager) (vid : Bytes) (v : ChunkMeta)
    → victim s.meta ≡ some (vid, v)
    → IsRecent before s.meta
    → IsRecent before (evict s (vid, v)).meta
unfolding evict
evict-IsRecent before s vid v e r = record {
  distinct = remove-Distinct bytes_discrete vid s.meta r.distinct;
  part = λ j w k. r.part j w (lookup-remove-some vid j w s.meta r.distinct k).1;
  recent = λ id j m w here gone k.
      let found = (lookup-remove-some vid j w s.meta r.distinct k).1 in
      elim (bytes_discrete id vid) [
        | yes p ↦
            let there = r.part vid v (victim-lookup s.meta vid v r.distinct e) in
            let same : m ≡ v = cc (here, there, p) in
            omega (
              arith,
              victim-le s.meta vid j v w e found,
              ap (λ (c : ChunkMeta). c.last_access) same,
            )
        | no p ↦
            r.recent id j m w here (sym (lookup-remove_ne bytes_discrete vid id s.meta p) ∙ gone)
              found
      ];
}

evict_loop-IsRecent :
    (f : ℕ) (s : StorageManager)
    → Distinct bytes_discrete s.meta
    → IsRecent s.meta (evict_loop f s).meta
evict_loop-IsRecent f s d =
    evict_loop_induction (λ t. IsRecent s.meta t.meta)
      (λ t vid v over e r. evict-IsRecent s.meta t vid v e r) f s (IsRecent-refl s.meta d)

-- On a well-formed manager `enforceLimit` evicts least recently used chunks first: what goes was used
-- no later than anything that stays, what stays is unchanged, and no chunk stands twice.
pub enforce_limit-IsRecent :
    (s : StorageManager) → IsValid s → IsRecent s.meta (enforce_limit s).meta
unfolding enforce_limit persist_metadata
enforce_limit-IsRecent s v = elim (Bool-cases (s.max_bytes == 0)) [
  | inl off ↦ rw (off, enforce_limit) (IsRecent-refl s.meta v.distinct)
  | inr on ↦ rw (on, enforce_limit) (evict_loop-IsRecent (length s.meta) s v.distinct)
]

-- `setMaxBytes` keeps the invariant and, with a limit, brings the bytes in use under it.
pub set_max_bytes-IsValid :
    (s : StorageManager) (max : ℕ)
    → IsValid s
    → IsValid (set_max_bytes s max) × (max ≢ 0 → (set_max_bytes s max).used_bytes ≤ max)
unfolding set_max_bytes
set_max_bytes-IsValid s max v =
    let w : IsValid (record s { max_bytes = max }) = record {
      distinct = v.distinct;
      accounted = v.accounted;
      bounded = v.bounded;
      stamped = v.stamped;
      stored = v.stored;
    } in
    (enforce_limit-IsValid _ w, λ on. enforce_limit-le _ w on)

-- On a well-formed manager, when the temporary file of a chunk that is in the map cannot be opened,
-- `storeChunk` throws, and leaves the map as it was but `usedBytes_` short of the chunk's size.
pub store_chunk-open_failed :
    (s : StorageManager) (c : ℕ) (hash bytes : Bytes) (m : ChunkMeta)
    → IsValid s
    → lookup bytes_discrete (c ∷ hash) s.meta ≡ some m
    → write_file s.disk (temp_path s.base_dir (c ∷ hash)) bytes ≡ none
    → ((store_chunk s (c ∷ hash) bytes).1 ≡ throw open_failed)
      × ((store_chunk s (c ∷ hash) bytes).0.meta ≡ s.meta)
      × ((store_chunk s (c ∷ hash) bytes).0.used_bytes + m.size ≡ total_size s.meta)
unfolding store_chunk finish_write without_size
store_chunk-open_failed s c hash bytes m v found closed =
    rw (closed, found, store_chunk, finish_write, without_size)
      (refl, refl, ground (arith, size-le-total_size (c ∷ hash) m s.meta found, v.accounted))
