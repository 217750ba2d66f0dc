-- ===== src/Storage/Invariant.antt =====
-- The well-formed states of a storage manager.
use s2_decentralised_storage.Prelude.{ℕ, ◌≤◌, ◌<◌, ◌≡◌, some, Bytes, length, lookup, bytes_discrete}
use s2_decentralised_storage.Prelude.Assoc.{Distinct}
use s2_decentralised_storage.Cpp.Decimal.{u64_mod}
use s2_decentralised_storage.FileSystem.{FileSystem, read_file}
use s2_decentralised_storage.Storage.{ChunkMeta, Metas, StorageManager, chunk_path}
use s2_decentralised_storage.Storage.Totals.{total_size}

-- Every entry of the map has a file of the size that the entry says.
abbrev pub IsStored : Bytes → Metas → FileSystem → Type 0
IsStored base ms fs =
    (id : Bytes) (m : ChunkMeta)
    → lookup bytes_discrete id ms ≡ some m
    → (bytes : Bytes) × (read_file fs (chunk_path base id) ≡ some bytes) × (length bytes ≡ m.size)

-- No entry is newer than the counter.
abbrev pub IsStamped : ℕ → Metas → Type 0
IsStamped counter ms =
    (id : Bytes) (m : ChunkMeta) → lookup bytes_discrete id ms ≡ some m → m.last_access ≤ counter

pub record IsValid (s : StorageManager) : Type 0 where
  pub distinct : Distinct bytes_discrete s.meta
  pub accounted : s.used_bytes ≡ total_size s.meta
  pub bounded : s.used_bytes < u64_mod
  pub stamped : IsStamped s.access_counter s.meta
  pub stored : IsStored s.base_dir s.meta s.disk
