-- ===== src/Dss/Transfer.antt =====
-- src/core/dss/dss_client.cpp: `putFile` and `getFile` as a whole.
use s2_decentralised_storage.Prelude.{
  ℕ, ◌+◌, ◌-◌, Bool, true, false, Option, none, some, List, [], ◌∷◌, ◌++◌, Bytes, codes, length,
  ltb, ◌==◌, if◌then◌else◌,
}
use s2_decentralised_storage.Cpp.Int.{ℤ, pos}
use s2_decentralised_storage.FileSystem.{FileSystem, read_file, write_file}
use s2_decentralised_storage.Crypto.Hex as Hex
use s2_decentralised_storage.Crypto.Sha256.{Sha256, sha256_hex}
use s2_decentralised_storage.Crypto.Hybrid as Hybrid
use s2_decentralised_storage.Crypto.Hybrid.{
  OpenSsl, FileEncryptionParams, EncryptedKey, aes_gcm_encrypt, encrypt_file_key_rsa,
  generate_file_key,
}
use s2_decentralised_storage.Dht.Id.{PeerEndpoint}
use s2_decentralised_storage.Dht.Node as Node
use s2_decentralised_storage.Dht.Node.{DhtNode, at_least_one}
use s2_decentralised_storage.Manifest as Manifest
use s2_decentralised_storage.Manifest.{Manifest, ManifestEntry, serialize_manifest, write_manifest}
use s2_decentralised_storage.Chunk as Chunk
use s2_decentralised_storage.Chunk.{Chunk, chunk_file}
use s2_decentralised_storage.Peer.Client as Client
use s2_decentralised_storage.Peer.Client.{Reply}
use s2_decentralised_storage.Storage.{or_else}
use s2_decentralised_storage.Tracker.{is_empty}
use s2_decentralised_storage.Dss.{
  ClientConfig, Error, Result, ok, throw, ensure, no_peers, no_output, bad_id, key_failed,
  encryption_failed, no_input, bad_chunking, peer_failed, no_manifest_dir, not_supported, ◌>>=◌,
  get_chunks, resolve_manifest, unwrap_key,
}

pub record PutFileResult : Type 0 where
  pub share_uri : Bytes
  pub local_manifest_path : Bytes

-- `fsPath.filename()`: what follows the last slash.
unfoldable pub base_name : Bytes → Bytes → Bytes
base_name name [] = name
base_name name (c ∷ path) = base_name (if c == b'/' then [] else name ++ c ∷ []) path

-- At least one replica, and no more than there are peers.
unfoldable pub clamp_replicas : ClientConfig → ℕ
clamp_replicas cfg =
    let n = at_least_one cfg.desired_replicas in
    if ltb (length cfg.peers) n then length cfg.peers else n

unfoldable pub from_chunks : Chunk.Result (List Chunk) → Result (List Chunk)
from_chunks (Chunk.ok chunks) = ok chunks
from_chunks (Chunk.throw _) = throw bad_chunking

unfoldable pub from_hybrid {ℓ} : {A : Type ℓ} → Error → Hybrid.Result A → Result A
from_hybrid e (Hybrid.ok a) = ok a
from_hybrid e (Hybrid.throw _) = throw e

module _ (sha : Sha256) (ssl : OpenSsl) {World : Type 0}
    (call : World → PeerEndpoint → Bytes → World × Reply) (can_alloc : ℕ → Bool) where
  -- How many targets have the chunk, and those that do not; an unreachable one throws.
  unfoldable pub ask_targets :
      World → Bytes → List PeerEndpoint → World × Result (ℕ × List PeerEndpoint)
  ask_targets w cid [] = (w, ok (0, []))
  ask_targets w cid (p ∷ ps) =
      let (w', has) = Client.has_chunk call can_alloc w p cid in
      let (w2, rest) = ask_targets w' cid ps in
      elim has [
        | Client.throw _ ↦ (w', throw peer_failed)
        | Client.ok yes_no ↦ (
          w2,
          do
            (already, missing) ← rest
            ok (if yes_no then (already + 1, missing) else (already, p ∷ missing)),
        )
      ]

  -- The chunk goes to peers without it until the number is reached, which is above zero.
  unfoldable pub upload_missing :
      World → Bytes → Bytes → ℕ → List PeerEndpoint → World × Result (Unit {0})
  upload_missing w cid payload needed [] = (w, ok tt)
  upload_missing w cid payload needed (p ∷ ps) =
      let (w', sent) = Client.put_chunk call can_alloc w p cid payload in
      let rest = upload_missing w' cid payload (needed - 1) ps in
      elim sent [
        | Client.throw _ ↦ (w', throw peer_failed)
        | Client.ok _ ↦ if ltb 1 needed then rest else (w', ok tt)
      ]

  unfoldable pub upload_all : World → Bytes → Bytes → List PeerEndpoint → World × Result (Unit {0})
  upload_all w cid payload [] = (w, ok tt)
  upload_all w cid payload (p ∷ ps) =
      let (w', sent) = Client.put_chunk call can_alloc w p cid payload in
      let rest = upload_all w' cid payload ps in
      elim sent [ Client.throw _ ↦ (w', throw peer_failed) | Client.ok _ ↦ rest ]

  -- A chunk in the clear goes where it is missing.
  unfoldable pub upload_plain :
      World → ℕ → Bytes → Bytes → List PeerEndpoint → World × Result (Unit {0})
  upload_plain w replicas cid payload targets =
      let (w', asked) = ask_targets w cid targets in
      elim asked [
        | throw e ↦ (w', throw e)
        | ok counts ↦
            if ltb counts.0 replicas
            then upload_missing w' cid payload (replicas - counts.0) counts.1
            else (w', ok tt)
      ]

  -- An encrypted chunk goes to every target.
  unfoldable pub upload :
      World
      → Option FileEncryptionParams
      → ℕ
      → ℕ
      → Bytes
      → Bytes
      → List PeerEndpoint
      → World × Result (Unit {0})
  unfolding upload_plain
  upload w none replicas idx cid bytes targets = upload_plain w replicas cid bytes targets
  upload w (some params) replicas idx cid bytes targets =
      elim (aes_gcm_encrypt ssl bytes params.key params.iv idx) [
        | Hybrid.throw _ ↦ (w, throw encryption_failed)
        | Hybrid.ok to_send ↦ upload_all w cid to_send targets
      ]

  unfoldable pub put_chunks :
      World
      → DhtNode
      → Option FileEncryptionParams
      → ℕ
      → ℕ
      → List Chunk
      → World × Result (List ManifestEntry)
  put_chunks w dht key replicas idx [] = (w, ok [])
  put_chunks w dht key replicas idx (c ∷ cs) =
      let cid = sha256_hex sha c.bytes in
      elim (Node.store sha dht cid (pos replicas)) [
        | none ↦ (w, throw bad_id)
        | some targets ↦
            let (w', sent) = upload w key replicas idx cid c.bytes targets in
            let (w2, rest) = put_chunks w' dht key replicas (idx + 1) cs in
            elim sent [
              | throw e ↦ (w', throw e)
              | ok _ ↦ (w2, do es ← rest; ok (record { chunk_id = cid } ∷ es))
            ]
      ]

  unfoldable pub put_manifests :
      World → Bytes → Bytes → List PeerEndpoint → World × Result (Unit {0})
  put_manifests w id text [] = (w, ok tt)
  put_manifests w id text (p ∷ ps) =
      let (w', sent) = Client.put_manifest call can_alloc w p id text in
      let rest = put_manifests w' id text ps in
      elim sent [ Client.throw _ ↦ (w', throw peer_failed) | Client.ok _ ↦ rest ]

  -- The key of the file and its wrapped form, if a public key is configured.
  unfoldable pub make_key : ClientConfig → Result (Option (FileEncryptionParams × EncryptedKey))
  make_key cfg = if is_empty cfg.rsa_public_key_path then ok none else (do
    params ← from_hybrid key_failed (generate_file_key ssl)
    ek ← from_hybrid key_failed (encrypt_file_key_rsa ssl params cfg.rsa_public_key_path)
    ok (some (params, ek)))

  unfoldable pub manifest_of :
      ClientConfig
      → Bytes
      → ℕ
      → Option (FileEncryptionParams × EncryptedKey)
      → List ManifestEntry
      → Manifest
  manifest_of cfg path size none entries = record {
    original_name = base_name [] path;
    original_size = size;
    chunk_size = cfg.chunk_size;
    chunks = entries;
    encrypted = false;
    enc_algo = [];
    key_enc_algo = [];
    encrypted_key_hex = [];
  }
  manifest_of cfg path size (some (params, ek)) entries = record {
    original_name = base_name [] path;
    original_size = size;
    chunk_size = cfg.chunk_size;
    chunks = entries;
    encrypted = true;
    enc_algo = codes "AES-256-GCM";
    key_enc_algo = ek.alg;
    encrypted_key_hex = Hex.to_hex ek.blob;
  }

  unfoldable pub params_of :
      Option (FileEncryptionParams × EncryptedKey) → Option FileEncryptionParams
  params_of none = none
  params_of (some (params, ek)) = some params

  -- The copy of the manifest on the local disk; its folder is there, or `is_dir` says that it could
  -- not be made.
  unfoldable pub keep_manifest :
      FileSystem → ClientConfig → Manifest → Bytes → FileSystem × Result PutFileResult
  keep_manifest fs cfg m hash =
      let dir =
        fs.absolute
          (if is_empty cfg.local_manifest_dir then codes "manifests" else cfg.local_manifest_dir) in
      let path = dir ++ b'/' ∷ (m.original_name ++ codes ".manifest.txt") in
      if fs.is_dir dir
      then elim (write_manifest fs path m) [
        | Manifest.throw _ ↦ (fs, throw no_output)
        | Manifest.ok fs' ↦ (
          fs',
          ok (record { share_uri = codes "dss://file/" ++ hash; local_manifest_path = path }),
        )
      ]
      else (fs, throw no_manifest_dir)

  -- The chunks first, then the manifest on the peers, then its local copy.
  unfoldable pub put_content :
      World
      → FileSystem
      → DhtNode
      → ClientConfig
      → Bytes
      → Bytes
      → Option (FileEncryptionParams × EncryptedKey)
      → List Chunk
      → World × FileSystem × Result PutFileResult
  put_content w fs dht cfg path content key chunks =
      let replicas = clamp_replicas cfg in
      let (w', entries) = put_chunks w dht (params_of key) replicas 0 chunks in
      elim entries [
        | throw e ↦ (w', fs, throw e)
        | ok es ↦
            let m = manifest_of cfg path (length content) key es in
            let text = serialize_manifest m in
            let hash = sha256_hex sha text in
            elim (Node.store sha dht (codes "manifest:" ++ hash) (pos replicas)) [
              | none ↦ (w', fs, throw bad_id)
              | some targets ↦
                  let (w2, sent) = put_manifests w' hash text targets in
                  elim sent [
                    | throw e ↦ (w2, fs, throw e)
                    | ok _ ↦ let (fs', kept) = keep_manifest fs cfg m hash in (w2, fs', kept)
                  ]
            ]
      ]

  -- What `putFile` needs before it sends anything.
  unfoldable pub prepare :
      FileSystem
      → ClientConfig
      → Bytes
      → Result (DhtNode × Bytes × Option (FileEncryptionParams × EncryptedKey) × List Chunk)
  prepare fs cfg path = do
    dht ← ensure bad_id (Node.create sha cfg.peers)
    content ← ensure no_input (read_file fs path)
    key ← make_key cfg
    chunks ← from_chunks (chunk_file can_alloc fs path cfg.chunk_size)
    ok (dht, content, key, chunks)

  unfoldable pub put_file :
      World → FileSystem → ClientConfig → Bytes → World × FileSystem × Result PutFileResult
  put_file w fs cfg path =
      if is_empty cfg.peers then (w, fs, throw no_peers) else elim (prepare fs cfg path) [
        | throw e ↦ (w, fs, throw e)
        | ok (dht, content, key, chunks) ↦ put_content w fs dht cfg path content key chunks
      ]

  -- `getFile` once the manifest and the key are there.
  unfoldable pub get_content :
      World
      → FileSystem
      → DhtNode
      → ClientConfig
      → Bytes
      → Manifest
      → Option FileEncryptionParams
      → World × FileSystem × Result (Unit {0})
  get_content w fs dht cfg out_path m key = elim (write_file fs out_path []) [
    | none ↦ (w, fs, throw no_output)
    | some opened ↦
        let (w', written, result) = get_chunks sha ssl call can_alloc w dht cfg key 0 m.chunks in
        (w', or_else (write_file opened out_path written) opened, result)
  ]

  unfoldable pub with_key :
      ClientConfig → Result Manifest → Result (Manifest × Option FileEncryptionParams)
  with_key cfg resolved = do
    m ← resolved
    key ← unwrap_key sha ssl call can_alloc cfg m
    ok (m, key)

  unfoldable pub get_file :
      World → FileSystem → ClientConfig → Bytes → Bytes → World × FileSystem × Result (Unit {0})
  get_file w fs cfg ref out_path =
      if is_empty cfg.peers then (w, fs, throw no_peers) else elim (Node.create sha cfg.peers) [
        | none ↦ (w, fs, throw bad_id)
        | some dht ↦
            let (w', resolved) = resolve_manifest sha ssl call can_alloc w fs dht cfg ref in
            elim (with_key cfg resolved) [
              | throw e ↦ (w', fs, throw e)
              | ok (m, key) ↦ get_content w' fs dht cfg out_path m key
            ]
      ]

-- `repair`
unfoldable pub repair : ℤ → Result (Unit {0})
repair batch = throw not_supported
