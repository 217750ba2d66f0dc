-- ===== src/Storage/Cache/Refinement.antt =====
-- The storage manager implements the cache.
use mathlib.Core.Path.{fun_ext}
use s2_decentralised_storage.Prelude.{
  ℕ, ◌+◌, ◌<◌, ◌≡◌, ◌≢◌, refl, ap, sym, ◌∙◌, subst, Option, none, some, ◌++◌, Bytes, codes, length,
  bytes_discrete, lookup, if_pos, if_neg, Option-cases, inl, inr, arith,
}
use s2_decentralised_storage.Prelude.Assoc.{lookup-assign, lookup-remove_ne, lookup-remove_self}
use s2_decentralised_storage.Cpp.Decimal.{u64_mod}
use s2_decentralised_storage.FileSystem.{FileSystem, read_file, read_file-remove_file}
use s2_decentralised_storage.Storage.{
  wrap, ChunkMeta, StorageManager, Result, ok, throw, chunk_path, enforce_limit, persist_metadata,
  record_chunk, store_chunk, load_chunk, finish_load, touch, touch_found, delete_chunk,
  set_max_bytes, has_chunk, is_found,
}
use s2_decentralised_storage.Storage.Paths.{chunk_path-injective}
use s2_decentralised_storage.Storage.Invariant.{IsValid}
use s2_decentralised_storage.Storage.Store.{
  HasRoom, Fits, IsPlaced, recorded, store_chunk_inv, recorded-IsValid, enforced-IsKept, new_meta,
}
use s2_decentralised_storage.Storage.Retrieval.{
  store_chunk-IsValid, delete_chunk-IsValid, load_chunk-IsValid,
}
use s2_decentralised_storage.Storage.Eviction.{set_max_bytes-IsValid}
use s2_decentralised_storage.Storage.Cache.{
  Cached, put, erase, IsFresh, Evicts, Call, store, load, delete, has, limit, Answer, done, failed,
  loaded, found, Step, stored, hit, missed, deleted, asked, limited, IsReady, perform,
  stored_answer, loaded_answer,
}
use s2_decentralised_storage.Storage.Cache.View.{
  view, view-none, view-some, view_inv, view-eq, view-persist_metadata, enforce_limit-Evicts,
}

view-IsFresh :
    (s : StorageManager)
    → s.access_counter + 1 < u64_mod
    → IsValid s
    → IsFresh (wrap (s.access_counter + 1)) (view s)
view-IsFresh s room v j c h =
    let k = view_inv s j c h in omega (arith, v.stamped j k.chunk k.found, k.used)

delete_chunk-erase :
    (s : StorageManager) (id : Bytes) → IsValid s → view (delete_chunk s id) ≡ erase id (view s)
unfolding delete_chunk
delete_chunk-erase s id v =
    view-persist_metadata _
    ∙ fun_ext λ j. elim (bytes_discrete j id) [
      | yes p ↦
          view-none _ j (rw p (lookup-remove_self bytes_discrete id s.meta v.distinct))
          ∙ sym (if_pos (bytes_discrete j id) p _ _)
      | no p ↦
          view-eq s _ j (lookup-remove_ne bytes_discrete id j s.meta p) (
            read_file-remove_file s.disk (chunk_path s.base_dir id) (chunk_path s.base_dir j)
              (λ q. p (chunk_path-injective s.base_dir j id q)))
          ∙ sym (if_neg (bytes_discrete j id) p _ _)
    ]

touch-put :
    (s : StorageManager) (id : Bytes) (c : Cached)
    → view s id ≡ some c
    → view (touch s id) ≡ put id (record c { used_at = wrap (s.access_counter + 1) }) (view s)
unfolding touch touch_found
touch-put s id c h =
    let k = view_inv s id c h in
    let new : ChunkMeta = record k.chunk { last_access = wrap (s.access_counter + 1) } in
    ap (λ o. view (touch_found s id o)) k.found
    ∙ fun_ext λ j. elim (bytes_discrete j id) [
      | yes q ↦
          view-some _ j new c.bytes
            (lookup-assign bytes_discrete id j new s.meta ∙ if_pos (bytes_discrete j id) q _ _)
            (rw q k.file)
          ∙ sym (if_pos (bytes_discrete j id) q _ _)
      | no q ↦
          view-eq s _ j
            (lookup-assign bytes_discrete id j new s.meta ∙ if_neg (bytes_discrete j id) q _ _) refl
          ∙ sym (if_neg (bytes_discrete j id) q _ _)
    ]

-- No chunk is named like the temporary file, so only the chunk that is stored changes.
recorded-put_other :
    (s : StorageManager) (id bytes : Bytes) (placed : FileSystem) (j : Bytes)
    → HasRoom s id (length bytes)
    → IsPlaced s id bytes placed
    → j ≢ id
    → view (recorded s id bytes placed) j ≡ view s j
unfolding record_chunk
recorded-put_other s id bytes placed j room p q =
    let e =
      lookup-assign bytes_discrete id j (new_meta s id bytes) s.meta
      ∙ if_neg (bytes_discrete j id) q _ _ in
    elim (bytes_discrete j (id ++ codes ".tmp")) [
      | yes r ↦
          let absent = ap (λ i. lookup bytes_discrete i s.meta) r ∙ room.temp in
          view-none _ j (e ∙ absent) ∙ sym (view-none s j absent)
      | no r ↦ view-eq s _ j e (p.others j q r)
    ]

recorded-put :
    (s : StorageManager) (id bytes : Bytes) (placed : FileSystem)
    → HasRoom s id (length bytes)
    → IsPlaced s id bytes placed
    → view (recorded s id bytes placed)
      ≡ put id (record { bytes = bytes; used_at = wrap (s.access_counter + 1) }) (view s)
unfolding record_chunk
recorded-put s id bytes placed room p = fun_ext λ j. elim (bytes_discrete j id) [
  | yes q ↦
      view-some _ j (new_meta s id bytes) bytes
        (lookup-assign bytes_discrete id j (new_meta s id bytes) s.meta
          ∙ if_pos (bytes_discrete j id) q _ _)
        (rw q p.here)
      ∙ sym (if_pos (bytes_discrete j id) q _ _)
  | no q ↦
      recorded-put_other s id bytes placed j room p q ∙ sym (if_neg (bytes_discrete j id) q _ _)
]

-- A successful store.
store-Step :
    (s t : StorageManager) (id bytes : Bytes)
    → IsValid s
    → HasRoom s id (length bytes)
    → Fits s (length bytes)
    → store_chunk s id bytes ≡ (t, ok tt)
    → Step (view s) (view t) (store id bytes) done
store-Step s t id bytes v room fits h =
    let stamp = wrap (s.access_counter + 1) in
    let (placed, p, e) = store_chunk_inv s id bytes t h in
    let r = recorded s id bytes placed in
    let kept = enforced-IsKept s id bytes placed p v room fits in
    let evicts : Evicts (put id (record { bytes = bytes; used_at = stamp }) (view s))
        (view (enforce_limit r)) =
      subst (λ m. Evicts m (view (enforce_limit r))) (recorded-put s id bytes placed room p)
        (enforce_limit-Evicts r (recorded-IsValid s id bytes placed p v room)) in
    subst (λ u. Step (view s) (view u) (store id bytes) done) (sym e)
      (stored id bytes stamp (view-IsFresh s room.counter v) evicts
        (view-some (enforce_limit r) id (new_meta s id bytes) bytes kept.found kept.file))

-- The chunk's file is there: a chunk in the map is used, and one that is not is left alone.
read-Step :
    (s : StorageManager) (id bytes : Bytes)
    → IsValid s
    → s.access_counter + 1 < u64_mod
    → read_file s.disk (chunk_path s.base_dir id) ≡ some bytes
    → Step (view s) (view (persist_metadata (touch s id))) (load id) (loaded bytes)
unfolding touch touch_found
read-Step s id bytes v room f = elim (Option-cases (lookup bytes_discrete id s.meta)) [
  | inl e ↦
      missed id (loaded bytes) (view-none s id e)
        (view-persist_metadata (touch s id) ∙ ap (λ o. view (touch_found s id o)) e)
  | inr (m, e) ↦
      let c : Cached = record { bytes = bytes; used_at = m.last_access } in
      let held = view-some s id m bytes e f in
      hit id c (wrap (s.access_counter + 1)) held (view-IsFresh s room v)
        (view-persist_metadata (touch s id) ∙ touch-put s id c held)
]

no_file :
    (s : StorageManager) (id : Bytes)
    → IsValid s
    → read_file s.disk (chunk_path s.base_dir id) ≡ none
    → view s id ≡ none
no_file s id v e = elim (Option-cases (lookup bytes_discrete id s.meta)) [
  | inl absent ↦ view-none s id absent
  | inr (m, there) ↦ let (bytes, f, _) = v.stored id m there in absurd (ground (arith, e, f))
]

load-Step :
    (s : StorageManager) (id : Bytes)
    → IsValid s
    → s.access_counter + 1 < u64_mod
    → Step (view s) (view (load_chunk s id).0) (load id) (loaded_answer (load_chunk s id).1)
unfolding load_chunk finish_load
load-Step s id v room =
    let left = λ (o : Option Bytes).
      Step (view s) (view (finish_load s id o).0) (load id)
        (loaded_answer (finish_load s id o).1) in
    elim (Option-cases (read_file s.disk (chunk_path s.base_dir id))) [
      | inl e ↦
          subst left (sym e) (unfold loaded_answer in missed id failed (no_file s id v e) refl)
      | inr (bytes, e) ↦ subst left (sym e) (unfold loaded_answer in read-Step s id bytes v room e)
    ]

-- The map has exactly what is seen.
seen_lem :
    (s : StorageManager) (id : Bytes)
    → IsValid s
    → is_found (view s id) ≡ is_found (lookup bytes_discrete id s.meta)
unfolding is_found
seen_lem s id v = elim (Option-cases (lookup bytes_discrete id s.meta)) [
  | inl e ↦ rw (e, view-none s id e)
  | inr (m, e) ↦ let (bytes, f, _) = v.stored id m e in rw (e, view-some s id m bytes e f)
]

has-Step :
    (s : StorageManager) (id : Bytes)
    → IsValid s
    → Step (view s) (view s) (has id) (found (has_chunk s id))
unfolding has_chunk is_found
has-Step s id v =
    let seen : is_found (view s id) ≡ is_found (lookup bytes_discrete id s.meta) =
      seen_lem s id v in
    subst (λ b. Step (view s) (view s) (has id) (found b)) seen (asked id refl)

set_max_bytes-Evicts :
    (s : StorageManager) (max : ℕ) → IsValid s → Evicts (view s) (view (set_max_bytes s max))
unfolding set_max_bytes
set_max_bytes-Evicts s max v =
    let limited_to : StorageManager = record s { max_bytes = max } in
    let w : IsValid limited_to = record {
      distinct = v.distinct;
      accounted = v.accounted;
      bounded = v.bounded;
      stamped = v.stamped;
      stored = v.stored;
    } in
    subst (λ m. Evicts m (view (enforce_limit limited_to)))
      (fun_ext λ j. view-eq s limited_to j refl refl) (enforce_limit-Evicts limited_to w)

stored_answer_inv :
    (r : StorageManager × Result (Unit {0})) (t : StorageManager)
    → r.0 ≡ t
    → stored_answer r.1 ≡ done
    → r ≡ (t, ok tt)
unfolding stored_answer
stored_answer_inv (u, ok _) t e h = ap (λ x. (x, ok tt)) e
stored_answer_inv (u, throw _) t e h = absurd (ground (arith, h))

-- Every call of a well-formed manager that is ready for it is a step of the cache.
pub perform-Step :
    (s t : StorageManager) (c : Call) (a : Answer)
    → IsValid s
    → IsReady s c a
    → perform s c ≡ (t, a)
    → IsValid t × Step (view s) (view t) c a
unfolding perform
perform-Step s t (store id bytes) a v (room, fits, d) h =
    let e : store_chunk s id bytes ≡ (t, ok tt) =
      stored_answer_inv (store_chunk s id bytes) t (ap (λ r. r.0) h) (ap (λ r. r.1) h ∙ d) in
    (
      store_chunk-IsValid s t id bytes v room e,
      subst (Step (view s) (view t) (store id bytes)) (sym d)
          (store-Step s t id bytes v room fits e),
    )
perform-Step s t (load id) a v room h =
    subst (λ r. IsValid r.0 × Step (view s) (view r.0) (load id) r.1) h
      (load_chunk-IsValid s id room v, load-Step s id v room)
perform-Step s t (delete id) a v room h =
    subst (λ r. IsValid r.0 × Step (view s) (view r.0) (delete id) r.1) h
      (delete_chunk-IsValid s id v, deleted id (delete_chunk-erase s id v))
perform-Step s t (has id) a v room h =
    subst (λ r. IsValid r.0 × Step (view s) (view r.0) (has id) r.1) h (v, has-Step s id v)
perform-Step s t (limit max) a v room h =
    subst (λ r. IsValid r.0 × Step (view s) (view r.0) (limit max) r.1) h
      ((set_max_bytes-IsValid s max v).0, limited max (set_max_bytes-Evicts s max v))
