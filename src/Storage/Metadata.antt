-- ===== src/Storage/Metadata.antt =====
-- The metadata file: what `persistMetadata` writes, `loadMetadata` reads back.
use s2_decentralised_storage.Prelude.{
  ℕ, zero, suc, ◌≤◌, ◌<◌, ◌≡◌, ◌≢◌, refl, sym, none, some, [], ◌∷◌, ◌++◌, append_assoc, append-nil,
  Bytes, length, length-append, lookup, bytes_discrete, arith, true, inl, inr, Option-cases, ◌∙◌,
  if_pos, if_neg, All,
}
use s2_decentralised_storage.Prelude.Assoc.{assign, Distinct}
use s2_decentralised_storage.Cpp.Stream.{
  is_space, IsWord, IsBreak, read_word, read_word-append, read_word-space,
}
use s2_decentralised_storage.Cpp.Decimal.{
  u64_mod, to_string, read_u64-to_string, read_u64-space, IsDigitEnd, is_digit,
}
use s2_decentralised_storage.FileSystem.{
  read_file, write_file, write_file_total, read_file-write_file,
}
use s2_decentralised_storage.Storage.{
  ChunkMeta, Metas, StorageManager, meta_lines, metadata_text, read_entry, read_entries,
  read_header, load_text, load_metadata, persist_metadata, meta_path, or_else,
}

-- An entry that the file can hold: its id is a word, its numbers are 64 bits wide.
pub record IsPrintable (e : Bytes × ChunkMeta) : Type 0 where
  pub word : IsWord e.0
  pub size : e.1.size < u64_mod
  pub last : e.1.last_access < u64_mod

space_end : (s : Bytes) → IsDigitEnd (b' ' ∷ s)
unfolding is_digit
space_end s = refl

line_end : (s : Bytes) → IsDigitEnd (10 ∷ s)
unfolding is_digit
line_end s = refl

space-IsBreak : (s : Bytes) → IsBreak (b' ' ∷ s)
unfolding is_space
space-IsBreak s = refl

abbrev line : Bytes × ChunkMeta → Bytes → Bytes
line (id, m) rest = id ++ b' ' ∷ (to_string m.size ++ b' ' ∷ (to_string m.last_access ++ 10 ∷ rest))

read_entry-line :
    (e : Bytes × ChunkMeta) (rest : Bytes)
    → IsPrintable e
    → read_entry (10 ∷ line e rest) ≡ some (e, 10 ∷ rest)
unfolding read_entry is_space
read_entry-line (id, m) rest p =
    let s2 : Bytes = to_string m.last_access ++ 10 ∷ rest in
    let s1 : Bytes = to_string m.size ++ b' ' ∷ s2 in
    rw (
      read_word-space 10 (id ++ b' ' ∷ s1) refl,
      read_word-append id (b' ' ∷ s1) p.word (space-IsBreak s1),
      read_u64-space b' ' s1 refl,
      read_u64-to_string m.size (b' ' ∷ s2) p.size (space_end s2),
      read_u64-space b' ' s2 refl,
      read_u64-to_string m.last_access (10 ∷ rest) p.last (line_end rest),
    )

read_entry_end : read_entry (10 ∷ []) ≡ none
unfolding read_entry is_space read_word
read_entry_end = refl

assign-append :
    (k : Bytes) (v : ChunkMeta) (acc : Metas)
    → lookup bytes_discrete k acc ≡ none
    → assign bytes_discrete k v acc ≡ acc ++ (k, v) ∷ []
unfolding lookup assign
assign-append k v [] h = refl
assign-append k v ((j, w) ∷ acc) h = ground (arith, assign-append k v acc)

lookup-snoc :
    (j k : Bytes) (v : ChunkMeta) (acc : Metas)
    → j ≢ k
    → lookup bytes_discrete j acc ≡ none
    → lookup bytes_discrete j (acc ++ (k, v) ∷ []) ≡ none
unfolding lookup
lookup-snoc j k v [] ne h = if_neg (bytes_discrete j k) ne _ _
lookup-snoc j k v ((i, w) ∷ acc) ne h = ground (arith, lookup-snoc j k v acc ne)

-- No id of the first map is an id of the second.
abbrev pub IsApart : Metas → Metas → Type 0
IsApart ms acc =
    (j : Bytes) (w : ChunkMeta)
    → lookup bytes_discrete j ms ≡ some w
    → lookup bytes_discrete j acc ≡ none

IsApart-head :
    (k : Bytes) (v : ChunkMeta) (ms acc : Metas)
    → IsApart ((k, v) ∷ ms) acc
    → lookup bytes_discrete k acc ≡ none
unfolding lookup
IsApart-head k v ms acc a = a k v (if_pos (bytes_discrete k k) refl _ _)

IsApart-tail :
    (k : Bytes) (v : ChunkMeta) (ms acc : Metas)
    → lookup bytes_discrete k ms ≡ none
    → IsApart ((k, v) ∷ ms) acc
    → IsApart ms (acc ++ (k, v) ∷ [])
unfolding lookup
IsApart-tail k v ms acc absent a j w found =
    let ne : j ≢ k = λ p. cc (absent, found, p) in
    lookup-snoc j k v acc ne (a j w (if_neg (bytes_discrete j k) ne _ _ ∙ found))

-- The lines are read back in order, behind what was read before.
read_entries-meta_lines :
    (f : ℕ) (ms acc : Metas)
    → length ms ≤ f
    → All IsPrintable ms
    → Distinct bytes_discrete ms
    → IsApart ms acc
    → read_entries f (10 ∷ meta_lines ms) acc ≡ acc ++ ms
unfolding read_entries meta_lines
read_entries-meta_lines zero [] acc le p d a = sym (append-nil acc)
read_entries-meta_lines zero (e ∷ ms) acc le p d a = absurd (omega arith)
read_entries-meta_lines (suc f) [] acc le p d a =
    rw (read_entry_end, read_entries) (sym (append-nil acc))
read_entries-meta_lines (suc f) ((k, v) ∷ ms) acc le (q, p) d a =
    rw (read_entry-line (k, v) (meta_lines ms) q, read_entries)
      (rw (assign-append k v acc (IsApart-head k v ms acc a)) (
        read_entries-meta_lines f ms (acc ++ (k, v) ∷ []) (omega arith) p d.1
          (IsApart-tail k v ms acc d.0 a)
        ∙ append_assoc acc ((k, v) ∷ []) ms))

length-meta_lines : (ms : Metas) → length ms ≤ length (meta_lines ms)
unfolding meta_lines
length-meta_lines [] = omega arith
length-meta_lines ((k, v) ∷ ms) = omega (
  arith,
  length-append k
      (b' ' ∷ (to_string v.size ++ b' ' ∷ (to_string v.last_access ++ 10 ∷ meta_lines ms))),
  length-append (to_string v.size) (b' ' ∷ (to_string v.last_access ++ 10 ∷ meta_lines ms)),
  length-append (to_string v.last_access) (10 ∷ meta_lines ms),
  length-meta_lines ms,
)

read_header-metadata_text :
    (counter used : ℕ) (ms : Metas)
    → counter < u64_mod
    → used < u64_mod
    → read_header (metadata_text counter used ms) ≡ some (counter, used, 10 ∷ meta_lines ms)
unfolding read_header metadata_text is_space
read_header-metadata_text counter used ms c u =
    let s1 : Bytes = to_string used ++ 10 ∷ meta_lines ms in
    rw (
      read_u64-to_string counter (b' ' ∷ s1) c (space_end s1),
      read_u64-space b' ' s1 refl,
      read_u64-to_string used (10 ∷ meta_lines ms) u (line_end (meta_lines ms)),
    )

written_metadata :
    (s : StorageManager)
    → s.disk.can_write (meta_path s.base_dir) ≡ true
    → read_file (persist_metadata s).disk (meta_path s.base_dir)
      ≡ some (metadata_text s.access_counter s.used_bytes s.meta)
unfolding persist_metadata or_else
written_metadata s can =
    let path = meta_path s.base_dir in
    let text = metadata_text s.access_counter s.used_bytes s.meta in
    elim (Option-cases (write_file s.disk path text)) [
      | inl e ↦ absurd (write_file_total s.disk path text can e)
      | inr (fs, e) ↦
          rw (e, or_else)
            (read_file-write_file s.disk path path text e
              ∙ if_pos (bytes_discrete path path) refl _ _)
    ]

-- A manager whose metadata file can be written, whose ids are words and whose numbers are 64 bits
-- wide: after `persistMetadata` a manager started on the same disk loads the same counters and the
-- same map.
pub load_metadata-persist_metadata :
    (s fresh : StorageManager)
    → s.disk.can_write (meta_path s.base_dir) ≡ true
    → s.access_counter < u64_mod
    → s.used_bytes < u64_mod
    → Distinct bytes_discrete s.meta
    → All IsPrintable s.meta
    → fresh.base_dir ≡ s.base_dir
    → fresh.disk ≡ (persist_metadata s).disk
    → ((load_metadata fresh).access_counter ≡ s.access_counter)
      × ((load_metadata fresh).used_bytes ≡ s.used_bytes)
      × ((load_metadata fresh).meta ≡ s.meta)
unfolding load_metadata load_text lookup
load_metadata-persist_metadata s fresh can c u d p base disk =
    let file : read_file fresh.disk (meta_path fresh.base_dir)
        ≡ some (metadata_text s.access_counter s.used_bytes s.meta) =
      rw (base, disk) (written_metadata s can) in
    let header = read_header-metadata_text s.access_counter s.used_bytes s.meta c u in
    let entries =
      read_entries-meta_lines (length (10 ∷ meta_lines s.meta)) s.meta []
        (omega (arith, length-meta_lines s.meta)) p d (λ j w k. refl) in
    rw (file, header, load_text) (refl, refl, entries)
