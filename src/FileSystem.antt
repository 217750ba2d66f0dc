-- ===== src/FileSystem.antt =====
-- The disk as the program sees it through `std::filesystem` and file streams: files by path, and
-- which paths the operating system lets it write, rename and remove. Paths are compared as texts;
-- `absolute` is `fs::absolute`.
use s2_decentralised_storage.Prelude.{
  Bool, true, ◌≡◌, ◌≢◌, List, Option, none, some, Bytes, ite, lookup, bytes_discrete, if◌then◌else◌,
  arith,
}
use s2_decentralised_storage.Prelude.Assoc.{assign, remove, lookup-assign, lookup-remove_ne}

pub record FileSystem : Type 0 where
  pub files : List (Bytes × Bytes)
  pub can_write : Bytes → Bool
  pub can_rename : Bytes → Bytes → Bool
  pub can_remove : Bytes → Bool
  pub is_dir : Bytes → Bool
  pub absolute : Bytes → Bytes

-- `std::ifstream in(path)` and the whole contents; none if the stream is not open.
unfoldable pub read_file : FileSystem → Bytes → Option Bytes
read_file fs p = lookup bytes_discrete p fs.files

-- `std::ofstream out(path)` and one text written to it, all of it: the code does not look at the
-- stream afterwards; none if the stream is not open.
unfoldable pub write_file : FileSystem → Bytes → Bytes → Option FileSystem
write_file fs p text =
    if fs.can_write p
    then some (record fs { files = assign bytes_discrete p text fs.files })
    else none

unfoldable pub move : FileSystem → Bytes → Bytes → Option Bytes → Option FileSystem
move fs from to none = none
move fs from to (some text) =
    if fs.can_rename from to
    then some
        (record fs { files = assign bytes_discrete to text (remove bytes_discrete from fs.files) })
    else none

-- `fs::rename(from, to, ec)`; none if `ec` is set.
unfoldable pub rename_file : FileSystem → Bytes → Bytes → Option FileSystem
unfolding move
rename_file fs from to = move fs from to (read_file fs from)

-- `fs::remove(path, ec)`; an error is not looked at.
unfoldable pub remove_file : FileSystem → Bytes → FileSystem
remove_file fs p =
    if fs.can_remove p then record fs { files = remove bytes_discrete p fs.files } else fs

pub read_file-write_file :
    (fs : FileSystem) (p q text : Bytes) {fs' : FileSystem}
    → write_file fs p text ≡ some fs'
    → read_file fs' q ≡ ite (bytes_discrete q p) (some text) (read_file fs q)
unfolding read_file write_file
read_file-write_file fs p q text h = ground (arith, lookup-assign bytes_discrete p q text fs.files)

pub read_file-remove_file :
    (fs : FileSystem) (p q : Bytes) → q ≢ p → read_file (remove_file fs p) q ≡ read_file fs q
unfolding read_file remove_file
read_file-remove_file fs p q h = ground (arith, lookup-remove_ne bytes_discrete p q fs.files)

-- After a rename the target has the text that the source had; other paths but the source keep
-- theirs.
pub read_file-rename_file :
    (fs : FileSystem) (from to q text : Bytes) {fs' : FileSystem}
    → read_file fs from ≡ some text
    → rename_file fs from to ≡ some fs'
    → q ≢ from
    → read_file fs' q ≡ ite (bytes_discrete q to) (some text) (read_file fs q)
unfolding read_file rename_file
read_file-rename_file fs from to q text h e ne = ground (
  arith,
  lookup-assign bytes_discrete to q text (remove bytes_discrete from fs.files),
  lookup-remove_ne bytes_discrete from q fs.files,
)

pub write_file_total :
    (fs : FileSystem) (p text : Bytes) → fs.can_write p ≡ true → write_file fs p text ≢ none
unfolding write_file
write_file_total fs p text can e = ground arith
