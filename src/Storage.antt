-- ===== src/Storage.antt =====
-- src/core/storage/storage_manager.h and .cpp: chunks on disk with a limit, eviction of the least
-- recently used chunk, and a metadata file. `meta` stands in the order in which the
-- `unordered_map` is walked; `uint64_t` wraps around.
pub mod Totals
pub mod Invariant
mod Paths
pub mod Steps
pub mod Limit
pub mod Store
pub mod Retrieval
pub mod Eviction
pub mod Metadata
pub mod Cache
use s2_decentralised_storage.Prelude.{
  ℕ, zero, suc, ◌+◌, ◌-◌, ◌%◌, ◌^◌, ◌≤◌, ◌≡◌, Bool, true, false, Option, none, some, List, [], ◌∷◌,
  ◌++◌, map, Bytes, codes, length, lookup, bytes_discrete, ltb, leb, ◌==◌, if◌then◌else◌, ◌>>=◌,
}
use s2_decentralised_storage.Prelude.Assoc.{assign, remove}
use s2_decentralised_storage.Cpp.Stream.{read_word}
use s2_decentralised_storage.Cpp.Decimal.{u64_mod, to_string, read_u64}
use s2_decentralised_storage.FileSystem.{
  FileSystem, read_file, write_file, rename_file, remove_file,
}

pub record ChunkMeta : Type 0 where
  pub size : ℕ
  pub last_access : ℕ

pub record ChunkInfo : Type 0 where
  pub id : Bytes
  pub size : ℕ
  pub last_access : ℕ

abbrev pub Metas : Type 0
Metas = List (Bytes × ChunkMeta)

pub record StorageManager : Type 0 where
  pub base_dir : Bytes
  pub max_bytes : ℕ
  pub used_bytes : ℕ
  pub access_counter : ℕ
  pub meta : Metas
  pub disk : FileSystem

pub data Error : Type 0 where
  empty_hash open_failed rename_failed missing_chunk : Error

-- The value that a method returns, or what it throws.
pub data Result {ℓ} (A : Type ℓ) : Type ℓ where
  ok : A → Result A
  throw : Error → Result A

abbrev pub wrap : ℕ → ℕ
wrap n = n % u64_mod

unfoldable pub chunks_dir : Bytes → Bytes
chunks_dir base = base ++ codes "/chunks"

unfoldable pub chunk_path : Bytes → Bytes → Bytes
unfolding chunks_dir
chunk_path base hash = chunks_dir base ++ b'/' ∷ hash

unfoldable pub meta_path : Bytes → Bytes
meta_path base = base ++ codes "/metadata.db"

-- The constructor.
unfoldable pub create : Bytes → ℕ → FileSystem → StorageManager
create base max fs = record {
  base_dir = base;
  max_bytes = max;
  used_bytes = 0;
  access_counter = 0;
  meta = [];
  disk = fs;
}

-- One line of the file for each chunk.
unfoldable pub meta_lines : Metas → Bytes
meta_lines [] = []
meta_lines ((id, m) ∷ ms) =
    id ++ b' ' ∷ (to_string m.size ++ b' ' ∷ (to_string m.last_access ++ 10 ∷ meta_lines ms))

unfoldable pub metadata_text : ℕ → ℕ → Metas → Bytes
unfolding meta_lines
metadata_text counter used ms = to_string counter ++ b' ' ∷ (to_string used ++ 10 ∷ meta_lines ms)

unfoldable pub or_else {ℓ} : {A : Type ℓ} → Option A → A → A
or_else none a = a
or_else (some b) a = b

-- `persistMetadata`: best effort, a file that does not open is left alone.
unfoldable pub persist_metadata : StorageManager → StorageManager
unfolding or_else
persist_metadata s = record s {
  disk =
      or_else
        (write_file s.disk (meta_path s.base_dir)
          (metadata_text s.access_counter s.used_bytes s.meta))
        s.disk;
}

-- The name of a file that stands directly in the folder.
unfoldable pub has_slash : Bytes → Bool
has_slash [] = false
has_slash (c ∷ s) = if c == b'/' then true else has_slash s

unfoldable pub strip_prefix : Bytes → Bytes → Option Bytes
strip_prefix [] s = some s
strip_prefix (c ∷ p) [] = none
strip_prefix (c ∷ p) (d ∷ s) = if c == d then strip_prefix p s else none

unfoldable pub file_name : Bytes → Bytes → Option Bytes
unfolding strip_prefix has_slash
file_name dir path = do
  name ← strip_prefix (dir ++ b'/' ∷ []) path
  if has_slash name then none else some name

-- One round of the walk over the folder.
unfoldable pub note_file : StorageManager → Option Bytes → ℕ → StorageManager
note_file s none size = s
note_file s (some id) size =
    let stamp = wrap (s.access_counter + 1) in
    record s {
      access_counter = stamp;
      meta = assign bytes_discrete id (record { size = size; last_access = stamp }) s.meta;
      used_bytes = wrap (s.used_bytes + size);
    }

unfoldable pub note_files : StorageManager → List (Bytes × Bytes) → StorageManager
unfolding note_file file_name
note_files s [] = s
note_files s ((path, text) ∷ files) =
    note_files (note_file s (file_name (chunks_dir s.base_dir) path) (length text)) files

unfoldable pub rebuild_metadata_from_disk : StorageManager → StorageManager
unfolding note_files persist_metadata
rebuild_metadata_from_disk s =
    let cleared = record s { meta = []; used_bytes = 0; access_counter = 0 } in
    if s.disk.is_dir (chunks_dir s.base_dir)
    then persist_metadata (note_files cleared s.disk.files)
    else cleared

-- `in >> id >> m.size >> m.lastAccess`
unfoldable pub read_entry : Bytes → Option ((Bytes × ChunkMeta) × Bytes)
read_entry s = do
  (id, s1) ← read_word s
  (size, s2) ← read_u64 s1
  (last, s3) ← read_u64 s2
  some ((id, record { size = size; last_access = last }), s3)

-- The `while` over the lines; every round reads some of the text, whose length is the fuel.
unfoldable pub read_entries : ℕ → Bytes → Metas → Metas
read_entries zero s ms = ms
read_entries (suc f) s ms = elim (read_entry s) [
  | none ↦ ms
  | some (e, rest) ↦ read_entries f rest (assign bytes_discrete e.0 e.1 ms)
]

unfoldable pub read_header : Bytes → Option (ℕ × ℕ × Bytes)
read_header s = do (counter, s1) ← read_u64 s; (used, s2) ← read_u64 s1; some (counter, used, s2)

unfoldable pub load_text : StorageManager → Option (ℕ × ℕ × Bytes) → StorageManager
load_text s none = rebuild_metadata_from_disk s
load_text s (some (counter, used, rest)) = record s {
  access_counter = counter;
  used_bytes = used;
  meta = read_entries (length rest) rest [];
}

unfoldable pub load_metadata : StorageManager → StorageManager
load_metadata s =
    let cleared = record s { meta = []; used_bytes = 0; access_counter = 0 } in
    load_text cleared (read_file s.disk (meta_path s.base_dir) >>= read_header)

-- `init`: the folders are there, or `is_dir` says that they could not be made.
unfoldable pub init : StorageManager → StorageManager
init s = load_metadata s

unfoldable pub touch_found : StorageManager → Bytes → Option ChunkMeta → StorageManager
touch_found s hash none = s
touch_found s hash (some m) =
    let stamp = wrap (s.access_counter + 1) in
    record s {
      access_counter = stamp;
      meta = assign bytes_discrete hash (record m { last_access = stamp }) s.meta;
    }

unfoldable pub touch : StorageManager → Bytes → StorageManager
unfolding touch_found
touch s hash = touch_found s hash (lookup bytes_discrete hash s.meta)

-- The scan for the least `lastAccess`; of equal ones the first stays.
unfoldable pub oldest : Bytes × ChunkMeta → Metas → Bytes × ChunkMeta
oldest best [] = best
oldest best (e ∷ es) = oldest (if ltb e.1.last_access best.1.last_access then e else best) es

unfoldable pub victim : Metas → Option (Bytes × ChunkMeta)
unfolding oldest
victim [] = none
victim (e ∷ es) = some (oldest e es)

-- The body of the loop: the file, the bytes and the entry go.
unfoldable pub evict : StorageManager → Bytes × ChunkMeta → StorageManager
evict s (id, m) = record s {
  disk = remove_file s.disk (chunk_path s.base_dir id);
  used_bytes = wrap (s.used_bytes + u64_mod - m.size);
  meta = remove bytes_discrete id s.meta;
}

-- The `while`; every round removes an entry, so their number is the fuel.
unfoldable pub evict_loop : ℕ → StorageManager → StorageManager
unfolding evict victim
evict_loop zero s = s
evict_loop (suc f) s = elim (ltb s.max_bytes s.used_bytes) [
  | false ↦ s
  | true ↦ elim (victim s.meta) [ none ↦ s | some v ↦ evict_loop f (evict s v) ]
]

unfoldable pub enforce_limit : StorageManager → StorageManager
enforce_limit s = if s.max_bytes == 0 then s else persist_metadata (evict_loop (length s.meta) s)

unfoldable pub set_max_bytes : StorageManager → ℕ → StorageManager
set_max_bytes s bytes = enforce_limit (record s { max_bytes = bytes })

-- The bytes in use without those of the chunk that is written again or deleted.
unfoldable pub without_size : ℕ → Option ChunkMeta → ℕ
without_size used none = used
without_size used (some m) = if leb m.size used then used - m.size else 0

unfoldable pub temp_path : Bytes → Bytes → Bytes
temp_path base hash = chunk_path base hash ++ codes ".tmp"

-- The map and the counters after the file is in place.
unfoldable pub record_chunk : StorageManager → Bytes → ℕ → StorageManager
record_chunk s hash size =
    let stamp = wrap (s.access_counter + 1) in
    record s {
      access_counter = stamp;
      meta = assign bytes_discrete hash (record { size = size; last_access = stamp }) s.meta;
      used_bytes = wrap (s.used_bytes + size);
    }

unfoldable pub finish_rename :
    StorageManager → Bytes → ℕ → FileSystem → Option FileSystem → StorageManager × Result (Unit {0})
unfolding record_chunk
finish_rename s hash size written none =
    (record s { disk = remove_file written (temp_path s.base_dir hash) }, throw rename_failed)
finish_rename s hash size written (some fs) =
    (enforce_limit (record_chunk (record s { disk = fs }) hash size), ok tt)

unfoldable pub finish_write :
    StorageManager → Bytes → ℕ → Option FileSystem → StorageManager × Result (Unit {0})
unfolding finish_rename
finish_write s hash size none = (s, throw open_failed)
finish_write s hash size (some fs) =
    finish_rename s hash size fs
      (rename_file fs (temp_path s.base_dir hash) (chunk_path s.base_dir hash))

unfoldable pub store_chunk : StorageManager → Bytes → Bytes → StorageManager × Result (Unit {0})
unfolding finish_write without_size
store_chunk s [] bytes = (s, throw empty_hash)
store_chunk s (c ∷ hash) bytes =
    let used = without_size s.used_bytes (lookup bytes_discrete (c ∷ hash) s.meta) in
    finish_write (record s { used_bytes = used }) (c ∷ hash) (length bytes)
      (write_file s.disk (temp_path s.base_dir (c ∷ hash)) bytes)

unfoldable pub finish_load : StorageManager → Bytes → Option Bytes → StorageManager × Result Bytes
unfolding touch persist_metadata
finish_load s hash none = (s, throw missing_chunk)
finish_load s hash (some bytes) = (persist_metadata (touch s hash), ok bytes)

unfoldable pub load_chunk : StorageManager → Bytes → StorageManager × Result Bytes
unfolding finish_load
load_chunk s hash = finish_load s hash (read_file s.disk (chunk_path s.base_dir hash))

unfoldable pub delete_chunk : StorageManager → Bytes → StorageManager
unfolding without_size
delete_chunk s hash = persist_metadata (record s {
  used_bytes = without_size s.used_bytes (lookup bytes_discrete hash s.meta);
  meta = remove bytes_discrete hash s.meta;
  disk = remove_file s.disk (chunk_path s.base_dir hash);
})

unfoldable pub list_chunks : StorageManager → List ChunkInfo
list_chunks s =
    map (λ e. record { id = e.0; size = e.1.size; last_access = e.1.last_access }) s.meta

unfoldable pub is_found {ℓ} : {A : Type ℓ} → Option A → Bool
is_found none = false
is_found (some a) = true

unfoldable pub has_chunk : StorageManager → Bytes → Bool
unfolding is_found
has_chunk s hash = is_found (lookup bytes_discrete hash s.meta)
