-- ===== src/Storage/Limit.antt =====
-- `enforceLimit`: the loop ends, under the limit, and takes the least recently used chunks.
use s2_decentralised_storage.Prelude.{
  ℕ, zero, suc, ◌≤◌, ◌<◌, ◌≡◌, ◌≢◌, refl, sym, ap, some, Bytes, length, lookup, bytes_discrete,
  arith, inl, inr, ◌∙◌, Option-cases, Bool-cases, ltb,
}
use s2_decentralised_storage.Prelude.Assoc.{remove, lookup-remove_ne}
use s2_decentralised_storage.FileSystem.{read_file, read_file-remove_file}
use s2_decentralised_storage.Storage.{
  ChunkMeta, StorageManager, chunk_path, victim, evict, evict_loop,
}
use s2_decentralised_storage.Storage.Totals.{
  total_size_empty, total_size_pos, total_size-remove, length-remove, victim-lookup, victim-le,
  victim-none,
}
use s2_decentralised_storage.Storage.Paths.{chunk_path-injective}
use s2_decentralised_storage.Storage.Invariant.{IsValid}
use s2_decentralised_storage.Storage.Steps.{evict-IsValid, lookup-remove-some}

-- What each round keeps, the loop keeps.
pub evict_loop_induction {ℓ} :
    (P : StorageManager → Type ℓ)
    → ((s : StorageManager) (id : Bytes) (m : ChunkMeta)
        → s.max_bytes < s.used_bytes
        → victim s.meta ≡ some (id, m)
        → P s
        → P (evict s (id, m)))
    → (f : ℕ) (s : StorageManager) → P s
    → P (evict_loop f s)
unfolding evict_loop
evict_loop_induction P round zero s h = h
evict_loop_induction P round (suc f) s h = elim (Bool-cases (ltb s.max_bytes s.used_bytes)) [
  | inr under ↦ rw (under, evict_loop) h
  | inl over ↦ elim (Option-cases (victim s.meta)) [
    | inl e ↦ rw (over, e, evict_loop) h
    | inr ((id, m), e) ↦
        rw (over, e, evict_loop)
          (evict_loop_induction P round f (evict s (id, m)) (round s id m (ground arith) e h))
  ]
]

pub evict_loop-IsValid : (f : ℕ) (s : StorageManager) → IsValid s → IsValid (evict_loop f s)
evict_loop-IsValid =
    evict_loop_induction IsValid
      λ s id m over e v. evict-IsValid s id m v (victim-lookup s.meta id m v.distinct e)

-- The loop leaves the limit, the counter and the folder alone.
pub evict_loop-frame :
    (f : ℕ) (s : StorageManager)
    → ((evict_loop f s).max_bytes ≡ s.max_bytes)
      × ((evict_loop f s).access_counter ≡ s.access_counter)
      × ((evict_loop f s).base_dir ≡ s.base_dir)
evict_loop-frame f s =
    evict_loop_induction
      (λ t.
        (t.max_bytes ≡ s.max_bytes)
        × (t.access_counter ≡ s.access_counter)
        × (t.base_dir ≡ s.base_dir))
      (λ t id m over e h. unfold evict in h) f s (refl, refl, refl)

-- In a well-formed state, the loop that evicts, given as many rounds as there are chunks or more,
-- does not stop early: it ends with the used bytes within the limit.
pub evict_loop-le :
    (f : ℕ) (s : StorageManager)
    → IsValid s
    → length s.meta ≤ f
    → (evict_loop f s).used_bytes ≤ s.max_bytes
unfolding evict_loop
evict_loop-le zero s v h = omega (arith, v.accounted, total_size_empty s.meta h)
evict_loop-le (suc f) s v h = elim (Bool-cases (ltb s.max_bytes s.used_bytes)) [
  | inr under ↦ rw (under, evict_loop) (ground arith)
  | inl over ↦ elim (Option-cases (victim s.meta)) [
    | inl e ↦
        rw (over, e, evict_loop)
          (omega
            (arith, v.accounted, total_size_empty s.meta (rw (victim-none s.meta e) (omega arith))))
    | inr ((id, m), e) ↦
        let found = victim-lookup s.meta id m v.distinct e in
        rw (over, e, evict_loop)
          (evict_loop-le f (evict s (id, m)) (evict-IsValid s id m v found)
            (unfold evict in omega (arith, length-remove id m s.meta found)))
  ]
]

-- A state in which one chunk is newer than all others, fits alone, and has its file.
pub record IsNewest (id : Bytes) (m : ChunkMeta) (bytes : Bytes) (s : StorageManager) : Type 0 where
  pub valid : IsValid s
  pub found : lookup bytes_discrete id s.meta ≡ some m
  pub newer :
      (j : Bytes) (w : ChunkMeta)
      → lookup bytes_discrete j s.meta ≡ some w
      → j ≢ id
      → w.last_access < m.last_access
  pub fits : m.size ≤ s.max_bytes
  pub file : read_file s.disk (chunk_path s.base_dir id) ≡ some bytes

-- Over the limit, the newest chunk is not alone, so it is not the victim.
victim-ne-newest :
    (id vid : Bytes) (m v : ChunkMeta) (bytes : Bytes) (s : StorageManager)
    → IsNewest id m bytes s
    → s.max_bytes < s.used_bytes
    → victim s.meta ≡ some (vid, v)
    → vid ≢ id
victim-ne-newest id vid m v bytes s n over e p =
    let vfound = victim-lookup s.meta vid v n.valid.distinct e in
    let rest = total_size-remove id m s.meta n.found in
    let (j, w, k) =
      total_size_pos (remove bytes_discrete id s.meta)
        (omega (arith, rest, n.fits, n.valid.accounted)) in
    let (ne, jfound) = lookup-remove-some id j w s.meta n.valid.distinct k in
    let le = victim-le s.meta vid j v w e jfound in
    let same : v ≡ m = cc (vfound, n.found, p) in
    omega (arith, le, n.newer j w jfound ne, ap (λ (c : ChunkMeta). c.last_access) same)

evict-IsNewest :
    (id vid : Bytes) (m v : ChunkMeta) (bytes : Bytes) (s : StorageManager)
    → s.max_bytes < s.used_bytes
    → victim s.meta ≡ some (vid, v)
    → IsNewest id m bytes s
    → IsNewest id m bytes (evict s (vid, v))
unfolding evict
evict-IsNewest id vid m v bytes s over e n =
    let ne = victim-ne-newest id vid m v bytes s n over e in
    record {
      valid = evict-IsValid s vid v n.valid (victim-lookup s.meta vid v n.valid.distinct e);
      found = lookup-remove_ne bytes_discrete vid id s.meta (λ p. ne (sym p)) ∙ n.found;
      newer = λ j w k jne. n.newer j w (lookup-remove-some vid j w s.meta n.valid.distinct k).1 jne;
      fits = n.fits;
      file =
          read_file-remove_file s.disk (chunk_path s.base_dir vid) (chunk_path s.base_dir id)
            (λ p. ne (sym (chunk_path-injective s.base_dir id vid p)))
          ∙ n.file;
    }

-- The newest chunk survives the loop, with its file, if it fits under the limit by itself.
pub evict_loop-IsNewest :
    (id : Bytes) (m : ChunkMeta) (bytes : Bytes) (f : ℕ) (s : StorageManager)
    → IsNewest id m bytes s
    → IsNewest id m bytes (evict_loop f s)
evict_loop-IsNewest id m bytes =
    evict_loop_induction (IsNewest id m bytes)
      λ s vid v over e n. evict-IsNewest id vid m v bytes s over e n
