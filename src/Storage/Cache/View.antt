-- ===== src/Storage/Cache/View.antt =====
-- A storage manager seen as a cache.
use mathlib.Core.Path.{fun_ext}
use s2_decentralised_storage.Prelude.{
  ℕ, ◌≡◌, refl, ap, sym, ◌∙◌, Option, none, some, Bytes, length, bytes_discrete, lookup,
  Option-cases, Bool-cases, inl, inr, arith, ◌==◌,
}
use s2_decentralised_storage.FileSystem.{read_file, read_file-remove_file}
use s2_decentralised_storage.Storage.{
  ChunkMeta, StorageManager, chunk_path, evict, evict_loop, enforce_limit, persist_metadata,
}
use s2_decentralised_storage.Storage.Paths.{chunk_path-injective}
use s2_decentralised_storage.Storage.Totals.{victim-lookup}
use s2_decentralised_storage.Storage.Invariant.{IsValid}
use s2_decentralised_storage.Storage.Steps.{
  evict-IsValid, lookup-remove-some, read_file-persist_metadata,
}
use s2_decentralised_storage.Storage.Limit.{evict_loop_induction}
use s2_decentralised_storage.Storage.Store.{enforce_limit-IsValid}
use s2_decentralised_storage.Storage.Eviction.{enforce_limit-IsRecent}
use s2_decentralised_storage.Storage.Cache.{Cached, Cache, Evicts}

with_file : ChunkMeta → Option Bytes → Option Cached
with_file m none = none
with_file m (some bytes) = some (record { bytes = bytes; used_at = m.last_access })

entry_of : StorageManager → Bytes → Option ChunkMeta → Option Cached
unfolding with_file
entry_of s id none = none
entry_of s id (some m) = with_file m (read_file s.disk (chunk_path s.base_dir id))

pub view : StorageManager → Cache
unfolding entry_of
view s id = entry_of s id (lookup bytes_discrete id s.meta)

module _ (s : StorageManager) (id : Bytes) where
  pub view-none : lookup bytes_discrete id s.meta ≡ none → view s id ≡ none
  unfolding view
  view-none e = ap (entry_of s id) e

  pub view-some :
      (m : ChunkMeta) (bytes : Bytes)
      → lookup bytes_discrete id s.meta ≡ some m
      → read_file s.disk (chunk_path s.base_dir id) ≡ some bytes
      → view s id ≡ some (record { bytes = bytes; used_at = m.last_access })
  unfolding view
  view-some m bytes e f = ap (entry_of s id) e ∙ ap (with_file m) f

  -- What is in the cache is in the map, with its file.
  pub record IsHeld (c : Cached) : Type 0 where
    pub chunk : ChunkMeta
    pub found : lookup bytes_discrete id s.meta ≡ some chunk
    pub file : read_file s.disk (chunk_path s.base_dir id) ≡ some c.bytes
    pub used : chunk.last_access ≡ c.used_at

  with_file_inv :
      (m : ChunkMeta) (o : Option Bytes) (c : Cached)
      → with_file m o ≡ some c
      → (o ≡ some c.bytes) × (m.last_access ≡ c.used_at)
  unfolding with_file
  with_file_inv m none c h = cc
  with_file_inv m (some bytes) c h = (ground (arith, h), ground (arith, h))

  pub view_inv : (c : Cached) → view s id ≡ some c → IsHeld c
  unfolding view
  view_inv c h = elim (Option-cases (lookup bytes_discrete id s.meta)) [
    | inl e ↦ absurd (ground (arith, ap (entry_of s id) e, h))
    | inr (m, e) ↦
        let (f, u) = with_file_inv m _ c (sym (ap (entry_of s id) e) ∙ h) in
        record { chunk = m; found = e; file = f; used = u }
  ]

  pub view-none_inv : IsValid s → view s id ≡ none → lookup bytes_discrete id s.meta ≡ none
  view-none_inv v h = elim (Option-cases (lookup bytes_discrete id s.meta)) [
    | inl e ↦ e
    | inr (m, e) ↦
        let (bytes, f, _) = v.stored id m e in absurd (ground (arith, view-some m bytes e f, h))
  ]

  pub view-of_IsHeld : (c : Cached) → IsHeld c → view s id ≡ some c
  view-of_IsHeld c k =
      view-some k.chunk c.bytes k.found k.file ∙ ap (λ u. some (record c { used_at = u })) k.used

-- A name is seen by its entry and its file alone.
pub view-eq :
    (s t : StorageManager) (j : Bytes)
    → lookup bytes_discrete j t.meta ≡ lookup bytes_discrete j s.meta
    → read_file t.disk (chunk_path t.base_dir j) ≡ read_file s.disk (chunk_path s.base_dir j)
    → view t j ≡ view s j
unfolding view entry_of
view-eq s t j e f = elim (Option-cases (lookup bytes_discrete j s.meta)) [
  | inl a ↦ view-none t j (e ∙ a) ∙ sym (view-none s j a)
  | inr (m, a) ↦ ap (entry_of t j) (e ∙ a) ∙ ap (with_file m) f ∙ sym (ap (entry_of s j) a)
]

pub view-persist_metadata : (s : StorageManager) → view (persist_metadata s) ≡ view s
unfolding persist_metadata
view-persist_metadata s =
    fun_ext λ j. view-eq s (persist_metadata s) j refl (read_file-persist_metadata s j)

-- Evictions leave the files of the chunks that stay.
abbrev KeepsFiles : StorageManager → StorageManager → Type 0
KeepsFiles s t =
    (t.base_dir ≡ s.base_dir)
    × ((j : Bytes) (w : ChunkMeta)
        → lookup bytes_discrete j t.meta ≡ some w
        → read_file t.disk (chunk_path s.base_dir j) ≡ read_file s.disk (chunk_path s.base_dir j))

evict-KeepsFiles :
    (s t : StorageManager) (id : Bytes) (m : ChunkMeta)
    → IsValid t
    → KeepsFiles s t
    → KeepsFiles s (evict t (id, m))
unfolding evict
evict-KeepsFiles s t id m v (b, k) = (
  b,
  λ j w e.
      let (ne, here) = lookup-remove-some id j w t.meta v.distinct e in
      read_file-remove_file t.disk (chunk_path t.base_dir id) (chunk_path s.base_dir j)
        (λ p. ne (chunk_path-injective s.base_dir j id (p ∙ ap (λ d. chunk_path d id) b)))
      ∙ k j w here,
)

evict_loop-KeepsFiles : (f : ℕ) (s : StorageManager) → IsValid s → KeepsFiles s (evict_loop f s)
evict_loop-KeepsFiles f s v =
    let start : KeepsFiles s s = (refl, λ j w e. refl) in
    let (_, kept) =
      evict_loop_induction (λ t. IsValid t × KeepsFiles s t)
        (λ t id m over e (vt, k). (
          evict-IsValid t id m vt (victim-lookup t.meta id m vt.distinct e),
          evict-KeepsFiles s t id m vt k,
        ))
        f s (v, start) in
    kept

persist_metadata-KeepsFiles :
    (s t : StorageManager) → KeepsFiles s t → KeepsFiles s (persist_metadata t)
unfolding persist_metadata
persist_metadata-KeepsFiles s t (b, k) = (
  b,
  λ j w e.
      ap (λ d. read_file (persist_metadata t).disk (chunk_path d j)) (sym b)
      ∙ read_file-persist_metadata t j
      ∙ ap (λ d. read_file t.disk (chunk_path d j)) b
      ∙ k j w e,
)

enforce_limit-KeepsFiles : (s : StorageManager) → IsValid s → KeepsFiles s (enforce_limit s)
unfolding enforce_limit
enforce_limit-KeepsFiles s v = elim (Bool-cases (s.max_bytes == 0)) [
  | inl off ↦ rw (off, enforce_limit) (refl, λ j w e. refl)
  | inr on ↦
      rw (on, enforce_limit)
        (persist_metadata-KeepsFiles s _ (evict_loop-KeepsFiles (length s.meta) s v))
]

-- What the limit evicts is what the cache may forget.
pub enforce_limit-Evicts :
    (s : StorageManager) → IsValid s → Evicts (view s) (view (enforce_limit s))
enforce_limit-Evicts s v =
    let t = enforce_limit s in
    let r = enforce_limit-IsRecent s v in
    let (base, files) = enforce_limit-KeepsFiles s v in
    record {
      part = λ j c h.
          let k = view_inv t j c h in
          view-of_IsHeld s j c (record {
            chunk = k.chunk;
            found = r.part j k.chunk k.found;
            file =
                sym (files j k.chunk k.found)
                ∙ sym (ap (λ d. read_file t.disk (chunk_path d j)) base)
                ∙ k.file;
            used = k.used;
          });
      recent = λ i j c d here gone h.
          let k = view_inv s i c here in
          let l = view_inv t j d h in
          omega (
            arith,
            r.recent i j k.chunk l.chunk k.found
                (view-none_inv t i (enforce_limit-IsValid s v) gone) l.found,
            k.used,
            l.used,
          );
    }
