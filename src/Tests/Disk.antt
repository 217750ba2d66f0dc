-- ===== src/Tests/Disk.antt =====
-- The storage manager on a small disk.
use s2_decentralised_storage.Prelude.{
  ◌+◌, ◌≤◌, ◌≡◌, refl, true, false, none, some, [], ◌∷◌, Bytes, codes, arith, lookup,
  bytes_discrete,
}
use s2_decentralised_storage.Prelude.Assoc.{assign}
use s2_decentralised_storage.Cpp.Stream.{is_space, IsWord}
use s2_decentralised_storage.FileSystem.{FileSystem, read_file, write_file, rename_file}
use s2_decentralised_storage.Storage as Storage
use s2_decentralised_storage.Storage.{
  StorageManager, ChunkMeta, store_chunk, finish_write, finish_rename, load_chunk, delete_chunk,
  has_chunk, persist_metadata, load_metadata, enforce_limit, meta_path, temp_path, chunk_path,
  chunks_dir, without_size, create, is_found,
}
use s2_decentralised_storage.Storage.Totals.{total_size}
use s2_decentralised_storage.Storage.Invariant.{IsValid}
use s2_decentralised_storage.Storage.Limit.{evict_loop-le}
use s2_decentralised_storage.Storage.{evict_loop}
use s2_decentralised_storage.Storage.Store.{HasRoom}
use s2_decentralised_storage.Storage.Retrieval.{load_chunk-IsValid}
use s2_decentralised_storage.Storage.Eviction.{
  IsRecent, enforce_limit-IsRecent, store_chunk-open_failed,
}
use s2_decentralised_storage.Storage.Metadata.{load_metadata-persist_metadata}

-- A disk where everything works, with two chunks that fill 5 bytes.
abbrev pub disk : FileSystem
disk = record {
  files = (codes "d/chunks/a1", codes "abc") ∷ (codes "d/chunks/b2", codes "de") ∷ [];
  can_write = λ _. true;
  can_rename = λ _ _. true;
  can_remove = λ _. true;
  is_dir = λ _. true;
  absolute = λ p. p;
}

abbrev pub manager : StorageManager
manager = record {
  base_dir = codes "d";
  max_bytes = 6;
  used_bytes = 5;
  access_counter = 9;
  meta =
      (codes "a1", record { size = 3; last_access = 4 })
      ∷ (codes "b2", record { size = 2; last_access = 9 })
      ∷ [];
  disk = disk;
}

-- A chunk's identifier.
abbrev pub c3 : Bytes
c3 = codes "c3"

abbrev a1 : Bytes
a1 = codes "a1"

abbrev b2 : Bytes
b2 = codes "b2"

pub c3-IsWord : IsWord c3
unfolding is_space
c3-IsWord = record { nonempty = λ e. cc; graph = (refl, (refl, tt)) }

a1-IsWord : IsWord a1
unfolding is_space
a1-IsWord = record { nonempty = λ e. cc; graph = (refl, (refl, tt)) }

b2-IsWord : IsWord b2
unfolding is_space
b2-IsWord = record { nonempty = λ e. cc; graph = (refl, (refl, tt)) }

file_a1 : read_file disk (chunk_path (codes "d") a1) ≡ some (codes "abc")
unfolding read_file chunk_path lookup bytes_discrete
file_a1 = refl

file_b2 : read_file disk (chunk_path (codes "d") b2) ≡ some (codes "de")
unfolding read_file chunk_path lookup bytes_discrete
file_b2 = refl

pub manager-IsValid : IsValid manager
unfolding lookup total_size
manager-IsValid = record {
  distinct = unfold bytes_discrete in (refl, (refl, tt));
  accounted = refl;
  bounded = omega arith;
  stamped = λ id m h. ground (arith, h);
  stored = λ id m h. elim (bytes_discrete id a1) [
    | yes p ↦ (codes "abc", rw (p) file_a1, ground (arith, h))
    | no p ↦ elim (bytes_discrete id b2) [
      | yes q ↦ (codes "de", rw (q) file_b2, ground (arith, h))
      | no q ↦ absurd (ground (arith, h))
    ]
  ];
}

pub manager-HasRoom : HasRoom manager c3 4
unfolding lookup bytes_discrete
manager-HasRoom = record { counter = omega arith; bytes = omega arith; temp = refl }

abbrev pub after : StorageManager
after = (store_chunk manager c3 (codes "wxyz")).0

-- The new chunk has evicted the older of the two.
pub stored_c3 : store_chunk manager c3 (codes "wxyz") ≡ (after, Storage.ok tt)
unfolding store_chunk write_file rename_file temp_path chunk_path read_file lookup assign
    bytes_discrete
stored_c3 = refl

enforce_limit-IsRecent_example : IsRecent manager.meta (enforce_limit manager).meta
enforce_limit-IsRecent_example = enforce_limit-IsRecent manager manager-IsValid

-- A smaller limit, under which only one of the chunks can stay.
abbrev shrunk : StorageManager
shrunk = record manager { max_bytes = 3 }

shrunk-IsValid : IsValid shrunk
shrunk-IsValid = record {
  distinct = manager-IsValid.distinct;
  accounted = manager-IsValid.accounted;
  bounded = manager-IsValid.bounded;
  stamped = manager-IsValid.stamped;
  stored = manager-IsValid.stored;
}

evict_loop-le_example : (evict_loop 2 shrunk).used_bytes ≤ 3
evict_loop-le_example = evict_loop-le 2 shrunk shrunk-IsValid (omega arith)

has_a1 : has_chunk manager a1 ≡ true
unfolding has_chunk is_found lookup bytes_discrete
has_a1 = refl

load_chunk-IsValid_example : IsValid (load_chunk manager a1).0
load_chunk-IsValid_example = load_chunk-IsValid manager a1 (omega arith) manager-IsValid

-- The same disk, read-only.
abbrev stuck : StorageManager
stuck = record manager { disk = record disk { can_write = λ _. false } }

stuck-IsValid : IsValid stuck
stuck-IsValid = record {
  distinct = manager-IsValid.distinct;
  accounted = manager-IsValid.accounted;
  bounded = manager-IsValid.bounded;
  stamped = manager-IsValid.stamped;
  stored = λ id m h. unfold read_file in manager-IsValid.stored id m h;
}

found_a1 : lookup bytes_discrete a1 stuck.meta ≡ some (record { size = 3; last_access = 4 })
unfolding lookup bytes_discrete
found_a1 = refl

closed_a1 : write_file stuck.disk (temp_path stuck.base_dir a1) (codes "new") ≡ none
unfolding write_file
closed_a1 = refl

store_chunk-open_failed_example :
    ((store_chunk stuck a1 (codes "new")).1 ≡ Storage.throw Storage.open_failed)
    × ((store_chunk stuck a1 (codes "new")).0.meta ≡ stuck.meta)
    × ((store_chunk stuck a1 (codes "new")).0.used_bytes + 3 ≡ total_size stuck.meta)
store_chunk-open_failed_example =
    store_chunk-open_failed stuck b'a' (codes "1") (codes "new")
      (record { size = 3; last_access = 4 }) stuck-IsValid found_a1 closed_a1

abbrev restarted : StorageManager
restarted = create (codes "d") 6 (persist_metadata manager).disk

load_metadata-persist_metadata_example :
    ((load_metadata restarted).access_counter ≡ 9)
    × ((load_metadata restarted).used_bytes ≡ 5)
    × ((load_metadata restarted).meta ≡ manager.meta)
load_metadata-persist_metadata_example =
    load_metadata-persist_metadata manager restarted refl (omega arith) (omega arith)
      manager-IsValid.distinct
      (
        record { word = a1-IsWord; size = omega arith; last = omega arith },
        (record { word = b2-IsWord; size = omega arith; last = omega arith }, tt),
      )
      (unfold create in refl) (unfold create in refl)
