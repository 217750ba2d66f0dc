-- ===== src/Storage/Paths.antt =====
-- The paths that a storage manager uses are distinct texts.
use s2_decentralised_storage.Prelude.{
  ℕ, ◌≡◌, ◌≢◌, ap, ◌∙◌, [], ◌∷◌, ◌++◌, Bytes, codes, append_assoc, arith,
}
use s2_decentralised_storage.Storage.{chunks_dir, chunk_path, meta_path, temp_path}

append_cancel_left : (a s t : Bytes) → a ++ s ≡ a ++ t → s ≡ t
append_cancel_left [] s t e = e
append_cancel_left (c ∷ a) s t e = append_cancel_left a s t (cc)

pub chunk_path-injective : (base h k : Bytes) → chunk_path base h ≡ chunk_path base k → h ≡ k
unfolding chunk_path
chunk_path-injective base h k e = cc (append_cancel_left (chunks_dir base) (b'/' ∷ h) (b'/' ∷ k) e)

-- The character that tells the two folders' entries apart.
abbrev second : Bytes → ℕ
second (c ∷ d ∷ s) = d
second _ = 0

pub meta_path-ne-chunk_path : (base h : Bytes) → meta_path base ≢ chunk_path base h
unfolding chunk_path meta_path chunks_dir
meta_path-ne-chunk_path base h e =
    let tails =
      append_cancel_left base (codes "/metadata.db") (codes "/chunks" ++ b'/' ∷ h)
        (e ∙ append_assoc base (codes "/chunks") (b'/' ∷ h)) in
    omega (arith, ap second tails)

-- The temporary file of a chunk is the file of the chunk with `.tmp` behind its name.
pub temp_path-chunk_path : (base h : Bytes) → temp_path base h ≡ chunk_path base (h ++ codes ".tmp")
unfolding temp_path chunk_path
temp_path-chunk_path base h = append_assoc (chunks_dir base) (b'/' ∷ h) (codes ".tmp")
