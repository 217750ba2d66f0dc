-- ===== src/Manifest.antt =====
-- src/core/manifest/manifest.h and .cpp: the text that lists the chunks of a file.
pub mod RoundTrip
use s2_decentralised_storage.Prelude.{
  ℕ, zero, suc, ◌≡◌, Bool, true, false, ◌&&◌, Option, none, some, List, [], ◌∷◌, ◌++◌, Bytes, codes,
  length, bytes_discrete, ite, if◌then◌else◌, ◌==◌,
}
use s2_decentralised_storage.Cpp.Stream.{read_word}
use s2_decentralised_storage.Cpp.Decimal.{to_string, read_u64}
use s2_decentralised_storage.Cpp.Int.{ℤ, pos, negsuc, read_int}
use s2_decentralised_storage.FileSystem.{FileSystem, read_file, write_file}

pub record ManifestEntry : Type 0 where
  pub chunk_id : Bytes

pub record Manifest : Type 0 where
  pub original_name : Bytes
  pub original_size : ℕ
  pub chunk_size : ℕ
  pub chunks : List ManifestEntry
  pub encrypted : Bool
  pub enc_algo : Bytes
  pub key_enc_algo : Bytes
  pub encrypted_key_hex : Bytes

-- The exceptions, by the part that is malformed or the file that does not open.
pub data Error : Type 0 where
  bad_filename bad_size bad_chunk_size bad_chunks bad_chunk_id : Error
  bad_enc_algo bad_key_enc_algo bad_enc_key : Error
  open_for_write open_for_read : Error

pub data Result {ℓ} (A : Type ℓ) : Type ℓ where
  ok : A → Result A
  throw : Error → Result A

infixl 5 ◌>>=◌
abbrev pub ◌>>=◌ {ℓ κ} : {A : Type ℓ} {B : Type κ} → Result A → (A → Result B) → Result B
ok a >>= f = f a
throw e >>= f = throw e

unfoldable pub entry_lines : List ManifestEntry → Bytes → Bytes
entry_lines [] rest = rest
entry_lines (e ∷ es) rest = e.chunk_id ++ 10 ∷ entry_lines es rest

unfoldable pub encryption_lines : Manifest → Bytes
encryption_lines m =
    if m.encrypted
    then codes "encrypted 1\nenc_algo "
      ++ (m.enc_algo
          ++ 10
            ∷ (codes "key_enc_algo "
                ++ (m.key_enc_algo ++ 10 ∷ (codes "enc_key " ++ (m.encrypted_key_hex ++ 10 ∷ [])))))
    else codes "encrypted 0\n"

unfoldable pub serialize_manifest : Manifest → Bytes
serialize_manifest m =
    codes "filename "
    ++ (m.original_name
        ++ 10
          ∷ (codes "size "
              ++ (to_string m.original_size
                  ++ 10
                    ∷ (codes "chunk_size "
                        ++ (to_string m.chunk_size
                            ++ 10
                              ∷ (codes "chunks "
                                  ++ (to_string (length m.chunks)
                                      ++ 10 ∷ entry_lines m.chunks (encryption_lines m))))))))

-- `in >> label >> value; if (!in || label != name) throw …`
unfoldable pub labelled {ℓ} :
    {A : Type ℓ} → Bytes → (Bytes → Option (A × Bytes)) → Error → Bytes → Result (A × Bytes)
labelled name read e s = elim (read_word s) [
  | none ↦ throw e
  | some (label, s1) ↦ elim (read s1) [
    | none ↦ throw e
    | some v ↦ ite (bytes_discrete label name) (ok v) (throw e)
  ]
]

-- The loop over the chunk ids; it stops at the first that is missing.
-- `reserve` is left out: it can only throw where the count is beyond what memory, and a text, holds.
unfoldable pub read_entries : ℕ → Bytes → Result (List ManifestEntry × Bytes)
read_entries zero s = ok ([], s)
read_entries (suc n) s = elim (read_word s) [
  | none ↦ throw bad_chunk_id
  | some (id, s1) ↦ do (es, s2) ← read_entries n s1; ok (record { chunk_id = id } ∷ es, s2)
]

-- `in >> label >> encFlag`, and whether it says that the file is encrypted
unfoldable pub read_flag : Bytes → Option (Bytes × ℤ × Bytes)
read_flag s = elim (read_word s) [
  | none ↦ none
  | some (label, s1) ↦ elim (read_int s1) [ none ↦ none | some (flag, s2) ↦ some (label, flag, s2) ]
]

unfoldable pub is_one : ℤ → Bool
is_one (pos n) = n == 1
is_one (negsuc n) = false

-- The three lines of an encrypted file.
unfoldable pub read_encryption_fields : Manifest → Bytes → Result Manifest
read_encryption_fields m s = do
  (algo, s1) ← labelled (codes "enc_algo") read_word bad_enc_algo s
  (key_algo, s2) ← labelled (codes "key_enc_algo") read_word bad_key_enc_algo s1
  (key, _) ← labelled (codes "enc_key") read_word bad_enc_key s2
  ok (record m {
    encrypted = true;
    enc_algo = algo;
    key_enc_algo = key_algo;
    encrypted_key_hex = key;
  })

unfoldable pub read_encryption : Manifest → Option (Bytes × ℤ × Bytes) → Result Manifest
read_encryption m none = ok m
read_encryption m (some (label, flag, s)) =
    ite (bytes_discrete label (codes "encrypted"))
      (if is_one flag then read_encryption_fields m s else ok m) (ok m)

unfoldable pub parse_manifest_text : Bytes → Result Manifest
parse_manifest_text text = do
  (name, s1) ← labelled (codes "filename") read_word bad_filename text
  (size, s2) ← labelled (codes "size") read_u64 bad_size s1
  (chunk_size, s3) ← labelled (codes "chunk_size") read_u64 bad_chunk_size s2
  (chunk_count, s4) ← labelled (codes "chunks") read_u64 bad_chunks s3
  (entries, s5) ← read_entries chunk_count s4
  read_encryption
      (record {
        original_name = name;
        original_size = size;
        chunk_size = chunk_size;
        chunks = entries;
        encrypted = false;
        enc_algo = [];
        key_enc_algo = [];
        encrypted_key_hex = [];
      })
      (read_flag s5)

unfoldable pub write_manifest : FileSystem → Bytes → Manifest → Result FileSystem
write_manifest fs path m = elim (write_file fs path (serialize_manifest m)) [
  | none ↦ throw open_for_write
  | some fs' ↦ ok fs'
]

-- A parse error is thrown on, with the path in its message.
unfoldable pub read_manifest : FileSystem → Bytes → Result Manifest
read_manifest fs path = elim (read_file fs path) [
  | none ↦ throw open_for_read
  | some text ↦ parse_manifest_text text
]
