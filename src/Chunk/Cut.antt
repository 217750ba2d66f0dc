-- ===== src/Chunk/Cut.antt =====
-- The chunks of a file are the file, all of them full but the last.
use s2_decentralised_storage.Prelude.{
  if◌then◌else◌, Bool, Bool-cases, inl, inr, subst, ℕ, zero, suc, ◌≤◌, ◌<◌, ◌≡◌, ◌≢◌, refl, ap,
  some, List, [], ◌∷◌, ◌++◌, Bytes, length, take, drop, take-append-drop, length-take, length-drop,
  arith,
}
use s2_decentralised_storage.FileSystem.{FileSystem, read_file}
use s2_decentralised_storage.Chunk.{
  Chunk, ok, throw, no_memory, read_loop, chunk_content, chunk_file,
}

-- The bytes of the chunks, one after the other.
unfoldable pub join : List Chunk → Bytes
join [] = []
join (c ∷ cs) = c.bytes ++ join cs

-- Every chunk has a byte; all but the last have `size` of them, and the last has no more.
abbrev pub IsCut : ℕ → List Chunk → Type 0
IsCut size [] = Unit {0}
IsCut size (c ∷ []) = (0 < length c.bytes) × (length c.bytes ≤ size)
IsCut size (c ∷ d ∷ cs) = (0 < length c.bytes) × (length c.bytes ≡ size) × IsCut size (d ∷ cs)

-- The rounds read everything.
read_loop-join :
    (f size : ℕ) (content : Bytes)
    → 0 < size
    → length content < f
    → join (read_loop f size content) ≡ content
unfolding read_loop join
read_loop-join zero size content s h = absurd (omega arith)
read_loop-join (suc f) zero content s h = absurd (omega arith)
read_loop-join (suc f) (suc size) [] s h = refl
read_loop-join (suc f) (suc size) (c ∷ rest) s h =
    rw (read_loop-join f (suc size) (drop size rest) s (omega (arith, length-drop size rest)))
      (ap (◌∷◌ c) (take-append-drop size rest))

-- Where bytes are left, the chunk is full.
full_chunk : (size : ℕ) (rest : Bytes) → drop size rest ≢ [] → length (take size rest) ≡ size
full_chunk zero rest h = refl
full_chunk (suc size) [] h = absurd (h refl)
full_chunk (suc size) (c ∷ rest) h = ap suc (full_chunk size rest h)

cons-IsCut :
    (size : ℕ) (c : ℕ) (rest : Bytes) (cs : List Chunk)
    → (cs ≢ [] → drop size rest ≢ [])
    → IsCut (suc size) cs
    → IsCut (suc size) (record { id = []; bytes = c ∷ take size rest } ∷ cs)
cons-IsCut size c rest [] h k = (omega arith, omega (arith, length-take size rest))
cons-IsCut size c rest (d ∷ cs) h k = (omega arith, ap suc (full_chunk size rest (h (λ e. cc))), k)

read_loop_nil : (f size : ℕ) → read_loop f size [] ≡ []
unfolding read_loop
read_loop_nil zero size = refl
read_loop_nil (suc f) zero = refl
read_loop_nil (suc f) (suc size) = refl

read_loop-IsCut : (f size : ℕ) (content : Bytes) → 0 < size → IsCut size (read_loop f size content)
unfolding read_loop
read_loop-IsCut zero size content s = tt
read_loop-IsCut (suc f) zero content s = absurd (omega arith)
read_loop-IsCut (suc f) (suc size) [] s = tt
read_loop-IsCut (suc f) (suc size) (c ∷ rest) s =
    cons-IsCut size c rest (read_loop f (suc size) (drop size rest))
      (λ ne e. ne (rw (e) (read_loop_nil f (suc size))))
      (read_loop-IsCut f (suc size) (drop size rest) s)

-- For every size but 0, of a file that opens: if the buffer can be allocated, the file is cut, and
-- the chunks are its bytes in order, none is empty, none is longer than the size, and all but the
-- last are full; if it cannot be, the call throws.
pub chunk_file_lem :
    (can_alloc : ℕ → Bool) (fs : FileSystem) (path content : Bytes) (size : ℕ)
    → 0 < size
    → read_file fs path ≡ some content
    → (cs : List Chunk) × (chunk_file can_alloc fs path size
        ≡ (if can_alloc size then ok cs else throw no_memory))
      × (join cs ≡ content)
      × IsCut size cs
unfolding chunk_file
chunk_file_lem can_alloc fs path content zero s h = absurd (omega arith)
chunk_file_lem can_alloc fs path content (suc size) s h = (
  read_loop (suc (length content)) (suc size) content,
  rw (h, chunk_content) (ground arith),
  read_loop-join (suc (length content)) (suc size) content s (omega arith),
  read_loop-IsCut (suc (length content)) (suc size) content s,
)

-- A file that was cut without an exception.
pub chunk_file_inv :
    (can_alloc : ℕ → Bool) (fs : FileSystem) (path content : Bytes) (size : ℕ) (cs : List Chunk)
    → read_file fs path ≡ some content
    → chunk_file can_alloc fs path size ≡ ok cs
    → (0 < size) × (join cs ≡ content) × IsCut size cs
unfolding chunk_file
chunk_file_inv can_alloc fs path content zero cs h e = absurd (ground (arith, e))
chunk_file_inv can_alloc fs path content (suc size) cs h e =
    let (ds, cut, whole, pieces) =
      chunk_file_lem can_alloc fs path content (suc size) (omega arith) h in
    elim (Bool-cases (can_alloc (suc size))) [
      | inr full ↦ absurd (ground (arith, e, cut, full))
      | inl room ↦
          let same : ds ≡ cs = ground (arith, e, cut, room) in
          (
            omega arith,
            subst (λ l. join l ≡ content) same whole,
            subst (IsCut (suc size)) same pieces,
          )
    ]
