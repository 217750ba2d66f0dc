-- ===== src/Manifest/RoundTrip.antt =====
-- A manifest is read back from its text, if its texts are words.
use s2_decentralised_storage.Prelude.{
  ℕ, ◌<◌, ◌≡◌, refl, sym, ap, ◌∙◌, Bool, true, false, Option, none, some, List, [], ◌∷◌, ◌++◌,
  append_assoc, Bytes, codes, length, bytes_discrete, if_pos, if◌then◌else◌, All, arith,
  Option-cases, Bool-cases, inl, inr,
}
use s2_decentralised_storage.Cpp.Stream.{
  is_space, IsGraph, IsWord, IsBreak, read_word, read_word-append, read_word-space,
}
use s2_decentralised_storage.Cpp.Decimal.{
  u64_mod, to_string, read_u64, read_u64-to_string, read_u64-space, read_number, read_unsigned,
  is_digit, IsDigitEnd,
}
use s2_decentralised_storage.Cpp.Int.{pos, read_int}
use s2_decentralised_storage.FileSystem.{FileSystem, write_file, read_file-write_file}
use s2_decentralised_storage.Manifest.{
  ManifestEntry, Manifest, Error, ok, throw, bad_size, entry_lines, encryption_lines,
  serialize_manifest, labelled, read_entries, read_flag, is_one, read_encryption,
  read_encryption_fields, parse_manifest_text, write_manifest, read_manifest, bad_filename,
  bad_chunk_size, bad_chunks, bad_enc_algo, bad_key_enc_algo, bad_enc_key,
}

-- A label, one space, and a value that its reader takes whole.
labelled_lem {ℓ} :
    {A : Type ℓ} (name : Bytes) (read : Bytes → Option (A × Bytes)) (e : Error) (s : Bytes) (v : A)
    (rest : Bytes)
    → IsWord name
    → read (b' ' ∷ s) ≡ some (v, rest)
    → labelled name read e (name ++ b' ' ∷ s) ≡ ok (v, rest)
unfolding labelled
labelled_lem name read e s v rest w h =
    rw (read_word-append name (b' ' ∷ s) w (unfold is_space in refl), labelled, h)
      (if_pos (bytes_discrete name name) refl _ _)

-- The same behind the end of a line.
labelled_line {ℓ} :
    {A : Type ℓ} (name : Bytes) (read : Bytes → Option (A × Bytes)) (e : Error) (s : Bytes) (v : A)
    (rest : Bytes)
    → IsWord name
    → read (b' ' ∷ s) ≡ some (v, rest)
    → labelled name read e (10 ∷ (name ++ b' ' ∷ s)) ≡ ok (v, rest)
unfolding labelled is_space
labelled_line name read e s v rest w h =
    rw (read_word-space 10 (name ++ b' ' ∷ s) refl, labelled)
      (labelled_lem name read e s v rest w h)

line-IsBreak : (s : Bytes) → IsBreak (10 ∷ s)
unfolding is_space
line-IsBreak s = refl

line_end : (s : Bytes) → IsDigitEnd (10 ∷ s)
unfolding is_digit
line_end s = refl

value_word : (w rest : Bytes) → IsWord w → read_word (b' ' ∷ (w ++ 10 ∷ rest)) ≡ some (w, 10 ∷ rest)
unfolding is_space
value_word w rest h =
    rw (read_word-space b' ' (w ++ 10 ∷ rest) refl)
      (read_word-append w (10 ∷ rest) h (line-IsBreak rest))

line_word : (w rest : Bytes) → IsWord w → read_word (10 ∷ (w ++ 10 ∷ rest)) ≡ some (w, 10 ∷ rest)
unfolding is_space
line_word w rest h =
    rw (read_word-space 10 (w ++ 10 ∷ rest) refl)
      (read_word-append w (10 ∷ rest) h (line-IsBreak rest))

value_u64 :
    (n : ℕ) (rest : Bytes)
    → n < u64_mod
    → read_u64 (b' ' ∷ (to_string n ++ 10 ∷ rest)) ≡ some (n, 10 ∷ rest)
unfolding is_space
value_u64 n rest h =
    rw (read_u64-space b' ' (to_string n ++ 10 ∷ rest) refl)
      (read_u64-to_string n (10 ∷ rest) h (line_end rest))

-- Letters and underscores make a word.
unfoldable pub is_label : Bytes → Bool
is_label [] = true
is_label (c ∷ s) = if is_space c then false else is_label s

IsGraph-of_label : (s : Bytes) → is_label s ≡ true → All IsGraph s
unfolding is_label
IsGraph-of_label [] h = tt
IsGraph-of_label (c ∷ s) h = elim (Bool-cases (is_space c)) [
  | inl e ↦ absurd (ground arith)
  | inr e ↦ (e, IsGraph-of_label s (rw (e, is_label) at h))
]

pub IsWord-of_is_label : (c : ℕ) (s : Bytes) → is_label (c ∷ s) ≡ true → IsWord (c ∷ s)
IsWord-of_is_label c s h = record { nonempty = λ e. cc; graph = IsGraph-of_label (c ∷ s) h }

abbrev pub AreWords : List ManifestEntry → Type 0
AreWords = All (λ e. IsWord e.chunk_id)

read_entries-entry_lines :
    (es : List ManifestEntry) (rest : Bytes)
    → AreWords es
    → read_entries (length es) (10 ∷ entry_lines es rest) ≡ ok (es, 10 ∷ rest)
unfolding read_entries entry_lines
read_entries-entry_lines [] rest h = refl
read_entries-entry_lines (e ∷ es) rest (w, h) =
    rw (line_word e.chunk_id (entry_lines es rest) w, read_entries)
      (rw (read_entries-entry_lines es rest h))

flag_off : read_flag (10 ∷ codes "encrypted 0\n") ≡ some (codes "encrypted", pos 0, 10 ∷ [])
unfolding read_flag read_word read_int read_number read_unsigned is_space
flag_off = refl

flag_on :
    (s : Bytes)
    → read_flag (10 ∷ (codes "encrypted 1\n" ++ s)) ≡ some (codes "encrypted", pos 1, 10 ∷ s)
unfolding read_flag read_word read_int read_number read_unsigned is_space
flag_on s = refl

-- What a manifest must satisfy to be read back: its name, chunk ids and encryption texts are words,
-- its numbers fit, and one that is not encrypted has no encryption texts.
pub record IsPrintable (m : Manifest) : Type 0 where
  pub name : IsWord m.original_name
  pub size : m.original_size < u64_mod
  pub chunk : m.chunk_size < u64_mod
  pub count : length m.chunks < u64_mod
  pub entries : AreWords m.chunks
  pub plain :
      m.encrypted ≡ false → (m.enc_algo ≡ []) × (m.key_enc_algo ≡ []) × (m.encrypted_key_hex ≡ [])
  pub secret :
      m.encrypted ≡ true → IsWord m.enc_algo × IsWord m.key_enc_algo × IsWord m.encrypted_key_hex

-- The state of the parser behind the chunk ids.
abbrev head_of : Manifest → Manifest
head_of m = record m { encrypted = false; enc_algo = []; key_enc_algo = []; encrypted_key_hex = [] }

read_encryption_fields_lem :
    (m h : Manifest)
    → IsWord m.enc_algo
    → IsWord m.key_enc_algo
    → IsWord m.encrypted_key_hex
    → read_encryption_fields h (
        10
        ∷ (codes "enc_algo "
            ++ (m.enc_algo
                ++ 10
                  ∷ (codes "key_enc_algo "
                      ++ (m.key_enc_algo
                          ++ 10 ∷ (codes "enc_key " ++ (m.encrypted_key_hex ++ 10 ∷ [])))))))
      ≡ ok (record h {
        encrypted = true;
        enc_algo = m.enc_algo;
        key_enc_algo = m.key_enc_algo;
        encrypted_key_hex = m.encrypted_key_hex;
      })
unfolding read_encryption_fields is_label is_space
read_encryption_fields_lem m h a k x =
    let t2 : Bytes = codes "enc_key " ++ (m.encrypted_key_hex ++ 10 ∷ []) in
    let t1 : Bytes = codes "key_enc_algo " ++ (m.key_enc_algo ++ 10 ∷ t2) in
    rw (
      labelled_line (codes "enc_algo") read_word bad_enc_algo (m.enc_algo ++ 10 ∷ t1) m.enc_algo
          (10 ∷ t1) (IsWord-of_is_label _ _ refl) (value_word m.enc_algo t1 a),
      labelled_line (codes "key_enc_algo") read_word bad_key_enc_algo (m.key_enc_algo ++ 10 ∷ t2)
          m.key_enc_algo (10 ∷ t2) (IsWord-of_is_label _ _ refl) (value_word m.key_enc_algo t2 k),
      labelled_line (codes "enc_key") read_word bad_enc_key (m.encrypted_key_hex ++ 10 ∷ [])
          m.encrypted_key_hex (10 ∷ []) (IsWord-of_is_label _ _ refl)
          (value_word m.encrypted_key_hex [] x),
    )

read_encryption-encryption_lines :
    (m : Manifest)
    → IsPrintable m
    → read_encryption (head_of m) (read_flag (10 ∷ encryption_lines m)) ≡ ok m
unfolding encryption_lines read_encryption is_one
read_encryption-encryption_lines m p = elim (Bool-cases m.encrypted) [
  | inl on ↦
      let (a, k, x) = p.secret on in
      let t : Bytes =
        codes "enc_algo "
        ++ (m.enc_algo
            ++ 10
              ∷ (codes "key_enc_algo "
                  ++ (m.key_enc_algo
                      ++ 10 ∷ (codes "enc_key " ++ (m.encrypted_key_hex ++ 10 ∷ []))))) in
      rw (on, encryption_lines)
        (rw (flag_on t, read_encryption)
          (if_pos (bytes_discrete (codes "encrypted") (codes "encrypted")) refl _ _
            ∙ read_encryption_fields_lem m (head_of m) a k x))
  | inr off ↦
      let (a, k, x) = p.plain off in
      rw (off, encryption_lines)
        (rw (flag_off, read_encryption)
          (if_pos (bytes_discrete (codes "encrypted") (codes "encrypted")) refl _ _ ∙ (λ i.
            ok (record m {
              encrypted = false;
              enc_algo = sym a i;
              key_enc_algo = sym k i;
              encrypted_key_hex = sym x i;
            }))))
]

-- The text behind each of the first four lines.
abbrev after_count : Manifest → Bytes
after_count m = entry_lines m.chunks (encryption_lines m)

abbrev after_chunk_size : Manifest → Bytes
after_chunk_size m = codes "chunks " ++ (to_string (length m.chunks) ++ 10 ∷ after_count m)

abbrev after_size : Manifest → Bytes
after_size m = codes "chunk_size " ++ (to_string m.chunk_size ++ 10 ∷ after_chunk_size m)

abbrev after_name : Manifest → Bytes
after_name m = codes "size " ++ (to_string m.original_size ++ 10 ∷ after_size m)

-- A manifest whose file name, chunk ids and encryption texts are words (no encryption texts if it is
-- not encrypted) and whose numbers have 64 bits is read back from its text.
pub parse_manifest_text-serialize_manifest :
    (m : Manifest) → IsPrintable m → parse_manifest_text (serialize_manifest m) ≡ ok m
unfolding parse_manifest_text serialize_manifest is_label is_space
parse_manifest_text-serialize_manifest m p =
    let name =
      labelled_lem (codes "filename") read_word bad_filename (m.original_name ++ 10 ∷ after_name m)
        m.original_name (10 ∷ after_name m) (IsWord-of_is_label _ _ refl)
        (value_word m.original_name (after_name m) p.name) in
    let size =
      labelled_line (codes "size") read_u64 bad_size
        (to_string m.original_size ++ 10 ∷ after_size m) m.original_size (10 ∷ after_size m)
        (IsWord-of_is_label _ _ refl) (value_u64 m.original_size (after_size m) p.size) in
    let chunk =
      labelled_line (codes "chunk_size") read_u64 bad_chunk_size
        (to_string m.chunk_size ++ 10 ∷ after_chunk_size m) m.chunk_size (10 ∷ after_chunk_size m)
        (IsWord-of_is_label _ _ refl) (value_u64 m.chunk_size (after_chunk_size m) p.chunk) in
    let count =
      labelled_line (codes "chunks") read_u64 bad_chunks
        (to_string (length m.chunks) ++ 10 ∷ after_count m) (length m.chunks) (10 ∷ after_count m)
        (IsWord-of_is_label _ _ refl) (value_u64 (length m.chunks) (after_count m) p.count) in
    let entries = read_entries-entry_lines m.chunks (encryption_lines m) p.entries in
    rw (name, size, chunk, count, entries) (read_encryption-encryption_lines m p)

-- A manifest whose file name, chunk ids and encryption texts are words (no encryption texts if it is
-- not encrypted) and whose numbers have 64 bits is read back from the file that `writeManifest` has
-- written without an exception.
pub read_manifest-write_manifest :
    (fs fs' : FileSystem) (path : Bytes) (m : Manifest)
    → IsPrintable m
    → write_manifest fs path m ≡ ok fs'
    → read_manifest fs' path ≡ ok m
unfolding read_manifest write_manifest
read_manifest-write_manifest fs fs' path m p h =
    elim (Option-cases (write_file fs path (serialize_manifest m))) [
      | inl e ↦ absurd (ground arith)
      | inr (fs2, e) ↦
          let same : fs' ≡ fs2 = ground arith in
          let text =
            read_file-write_file fs path path (serialize_manifest m) e
            ∙ if_pos (bytes_discrete path path) refl _ _ in
          rw (same, text, read_manifest) (parse_manifest_text-serialize_manifest m p)
    ]

no_number : (m : Manifest) → read_u64 (10 ∷ after_name m) ≡ none
unfolding read_u64 read_number read_unsigned is_space
no_number m = refl

not_a_size :
    (b rest : Bytes)
    → IsWord b
    → read_u64 (10 ∷ rest) ≡ none
    → labelled (codes "size") read_u64 bad_size (b' ' ∷ (b ++ 10 ∷ rest)) ≡ throw bad_size
unfolding labelled is_space
not_a_size b rest w h = rw (
  read_word-space b' ' (b ++ 10 ∷ rest) refl ∙ read_word-append b (10 ∷ rest) w (line-IsBreak rest),
  labelled,
  h,
)

-- The parser on a name of two words, whatever follows the line if it is no number.
parse_space :
    (a b rest : Bytes)
    → IsWord a
    → IsWord b
    → read_u64 (10 ∷ rest) ≡ none
    → parse_manifest_text (codes "filename " ++ ((a ++ b' ' ∷ b) ++ 10 ∷ rest)) ≡ throw bad_size
unfolding parse_manifest_text is_label is_space
parse_space a b rest wa wb h =
    let t : Bytes = b ++ 10 ∷ rest in
    let name =
      labelled_lem (codes "filename") read_word bad_filename (a ++ b' ' ∷ t) a (b' ' ∷ t)
        (IsWord-of_is_label _ _ refl)
        (read_word-space b' ' (a ++ b' ' ∷ t) refl ∙ read_word-append a (b' ' ∷ t) wa refl) in
    rw (append_assoc a (b' ' ∷ b) (10 ∷ rest), name) (rw (not_a_size b rest wb h))

-- A manifest whose file name is two words with a space between cannot be read back: the second word
-- is taken for the next label, and the parser throws.
pub parse_manifest_text_space :
    (m : Manifest) (a b : Bytes)
    → IsWord a
    → IsWord b
    → m.original_name ≡ a ++ b' ' ∷ b
    → parse_manifest_text (serialize_manifest m) ≡ throw bad_size
unfolding serialize_manifest
parse_manifest_text_space m a b wa wb e =
    ap (λ n. parse_manifest_text (codes "filename " ++ (n ++ 10 ∷ after_name m))) e
    ∙ parse_space a b (after_name m) wa wb (no_number m)
