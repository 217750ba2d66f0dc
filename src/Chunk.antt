-- ===== src/Chunk.antt =====
-- src/core/chunk/chunker.h and .cpp: a file is cut into chunks of one size.
pub mod Cut
use s2_decentralised_storage.Prelude.{
  ℕ, Bool, zero, suc, Option, none, some, List, [], ◌∷◌, Bytes, length, take, drop, ◌==◌,
  if◌then◌else◌,
}
use s2_decentralised_storage.FileSystem.{FileSystem, read_file}

pub record Chunk : Type 0 where
  pub id : Bytes
  pub bytes : Bytes

-- `std::invalid_argument`, `std::runtime_error` for a file that does not open, and what
-- `std::vector` throws when it cannot have the size (`std::length_error`, `std::bad_alloc`)
pub data Error : Type 0 where
  zero_size open_failed no_memory : Error

pub data Result {ℓ} (A : Type ℓ) : Type ℓ where
  ok : A → Result A
  throw : Error → Result A

-- One round: `got` is what `in.read` placed in the buffer; the caller fills in the id.
unfoldable pub read_loop : ℕ → ℕ → Bytes → List Chunk
read_loop zero size content = []
read_loop (suc f) size content = elim (take size content) [
  | [] ↦ []
  | c ∷ got ↦ record { id = []; bytes = c ∷ got } ∷ read_loop f size (drop size content)
]

-- Every round but the last consumes a byte, so the length of the file and one are enough fuel.
-- `can_alloc` is whether a vector can have a size: the buffer has the size of a chunk, whatever the
-- length of the file.
module _ (can_alloc : ℕ → Bool) where
  unfoldable pub chunk_content : ℕ → Option Bytes → Result (List Chunk)
  chunk_content size none = throw open_failed
  chunk_content size (some content) =
      if can_alloc size then ok (read_loop (suc (length content)) size content) else throw no_memory

  unfoldable pub chunk_file : FileSystem → Bytes → ℕ → Result (List Chunk)
  unfolding chunk_content
  chunk_file fs path size =
      if size == 0 then throw zero_size else chunk_content size (read_file fs path)
