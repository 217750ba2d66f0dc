-- ===== src/Tests/Registry.antt =====
-- Manifests, chunks of a file, and the tracker's answers.
use s2_decentralised_storage.Prelude.{
  ltb, ℕ, zero, suc, ◌+◌, ◌≤◌, ◌<◌, ◌≡◌, ◌≢◌, refl, Bool, true, false, Option, none, some, List, [],
  ◌∷◌, ◌++◌, Bytes, codes, length, arith, bytes_discrete, lookup, All, ◌^◌, if_pos,
}
use s2_decentralised_storage.Prelude.Assoc.{Distinct}
use s2_decentralised_storage.Cpp.Stream.{is_space, IsWord}
use s2_decentralised_storage.Cpp.Int.{pos}
use s2_decentralised_storage.FileSystem.{FileSystem, read_file, write_file}
use s2_decentralised_storage.Manifest as Manifest
use s2_decentralised_storage.Manifest.{
  Manifest, ManifestEntry, serialize_manifest, parse_manifest_text, write_manifest, read_manifest,
}
use s2_decentralised_storage.Manifest.RoundTrip.{
  IsPrintable, parse_manifest_text-serialize_manifest, parse_manifest_text_space,
}
use s2_decentralised_storage.Chunk as Chunk
use s2_decentralised_storage.Chunk.{chunk_file}
use s2_decentralised_storage.Chunk.Cut.{join, IsCut, chunk_file_lem}
use s2_decentralised_storage.Tracker.{
  Tracker, PeerInfo, where_alive, is_in, entry, seen, announce, is_port,
}
use s2_decentralised_storage.Tracker.Answers.{address, where_alive-announce, where_alive_lem}
use s2_decentralised_storage.Tests.Disk.{disk, c3, c3-IsWord}

abbrev manifest : Manifest
manifest = record {
  original_name = codes "f.txt";
  original_size = 3;
  chunk_size = 2;
  chunks = record { chunk_id = c3 } ∷ [];
  encrypted = true;
  enc_algo = codes "AES";
  key_enc_algo = codes "RSA";
  encrypted_key_hex = c3;
}

three_letters :
    (a b c : ℕ)
    → is_space a ≡ false
    → is_space b ≡ false
    → is_space c ≡ false
    → IsWord (a ∷ b ∷ c ∷ [])
three_letters a b c p q r = record { nonempty = λ e. cc; graph = (p, (q, (r, tt))) }

manifest-IsPrintable : IsPrintable manifest
unfolding is_space
manifest-IsPrintable = record {
  name = record { nonempty = λ e. cc; graph = (refl, (refl, (refl, (refl, (refl, tt))))) };
  size = omega arith;
  chunk = omega arith;
  count = omega arith;
  entries = (c3-IsWord, tt);
  plain = λ e. cc;
  secret = λ e. (
    three_letters b'A' b'E' b'S' refl refl refl,
    three_letters b'R' b'S' b'A' refl refl refl,
    c3-IsWord,
  );
}

parse_manifest_text-serialize_manifest_example :
    parse_manifest_text (serialize_manifest manifest) ≡ Manifest.ok manifest
parse_manifest_text-serialize_manifest_example =
    parse_manifest_text-serialize_manifest manifest manifest-IsPrintable

abbrev path : Bytes
path = codes "m.txt"

abbrev with_manifest : FileSystem
with_manifest = record disk { files = disk.files ++ (path, serialize_manifest manifest) ∷ [] }

wrote_manifest : write_manifest disk path manifest ≡ Manifest.ok with_manifest
unfolding write_manifest write_file s2_decentralised_storage.Prelude.Assoc.assign bytes_discrete
wrote_manifest = refl

parse_manifest_text_space_example :
    parse_manifest_text (serialize_manifest (record manifest { original_name = codes "c3 c3" }))
    ≡ Manifest.throw Manifest.bad_size
parse_manifest_text_space_example =
    parse_manifest_text_space (record manifest { original_name = codes "c3 c3" }) c3 c3 c3-IsWord
      c3-IsWord refl

file_a1 : read_file disk (codes "d/chunks/a1") ≡ some (codes "abc")
unfolding read_file lookup bytes_discrete
file_a1 = refl

abbrev few_bytes : ℕ → Bool
few_bytes n = ltb n 1000

chunk_file_lem_example :
    (cs : List Chunk.Chunk) × (chunk_file few_bytes disk (codes "d/chunks/a1") 2 ≡ Chunk.ok cs)
    × (join cs ≡ codes "abc")
    × IsCut 2 cs
chunk_file_lem_example =
    chunk_file_lem few_bytes disk (codes "d/chunks/a1") (codes "abc") 2 (omega arith) file_a1

-- Two peers, one of them stale at time 100, and a chunk that both have.
abbrev pub tracker : Tracker
tracker = record {
  peers = (codes "p:1", record { last_seen = 90 }) ∷ (codes "q:2", record { last_seen = 50 }) ∷ [];
  chunk_index = (c3, codes "p:1" ∷ codes "q:2" ∷ []) ∷ [];
}

pub peers-Distinct : Distinct bytes_discrete tracker.peers
unfolding lookup bytes_discrete
peers-Distinct = (refl, (refl, tt))

port_7 : is_port (pos 7) ≡ true
unfolding is_port
port_7 = refl

where_alive-announce_example :
    is_in (entry c3 (pos 7)) (
      where_alive 120
        (announce
          (seen 100 tracker [] (address c3 (pos 7))).0
          (b' ' ∷ (c3 ++ address c3 (pos 7)))).0
        c3)
    ≡ true
where_alive-announce_example =
    where_alive-announce 100 120 tracker [] c3 c3 (pos 7) c3-IsWord c3-IsWord port_7 (omega arith)

where_alive_lem_example :
    All
      (λ e.
        (i : PeerInfo) × (lookup bytes_discrete e tracker.peers ≡ some i)
        × (100 ≤ i.last_seen + 30))
      (where_alive 100 tracker c3)
where_alive_lem_example = where_alive_lem 100 tracker c3
