-- ===== src/Dss.antt =====
-- src/core/dss/dss_client.h and .cpp: a file is put on the peers, and got back from them. The network is
-- a parameter with a state of its own; progress callbacks are left out.
pub mod Candidates
pub mod Integrity
pub mod Transfer
pub mod RoundTrip
pub mod Puts
pub mod Gets
pub mod Resolve
pub mod Printable
pub mod WholeFile
use s2_decentralised_storage.Prelude.{
  ℕ, zero, suc, ◌+◌, ◌-◌, Bool, true, false, not, ◌&&◌, ◌||◌, ite, Option, none, some, List, [],
  ◌∷◌, ◌++◌, map, Bytes, codes, length, ltb, leb, ◌==◌, if◌then◌else◌, bytes_discrete,
}
use s2_decentralised_storage.Cpp.Int.{ℤ, pos, negsuc}
use s2_decentralised_storage.FileSystem.{FileSystem, read_file, write_file}
use s2_decentralised_storage.Crypto.Hex as Hex
use s2_decentralised_storage.Crypto.Sha256.{Sha256, sha256_hex}
use s2_decentralised_storage.Crypto.Hybrid as Hybrid
use s2_decentralised_storage.Crypto.Hybrid.{
  OpenSsl, FileEncryptionParams, EncryptedKey, aes_gcm_encrypt, aes_gcm_decrypt,
  encrypt_file_key_rsa, decrypt_file_key_rsa, generate_file_key,
}
use s2_decentralised_storage.Dht.Id.{PeerEndpoint}
use s2_decentralised_storage.Dht.Node as Node
use s2_decentralised_storage.Dht.Node.{DhtNode, at_least_one}
use s2_decentralised_storage.Manifest as Manifest
use s2_decentralised_storage.Manifest.{
  Manifest, ManifestEntry, serialize_manifest, parse_manifest_text, read_manifest, write_manifest,
}
use s2_decentralised_storage.Chunk as Chunk
use s2_decentralised_storage.Chunk.{Chunk, chunk_file}
use s2_decentralised_storage.Peer.Client as Client
use s2_decentralised_storage.Peer.Client.{Reply}
use s2_decentralised_storage.Storage.{strip_prefix, is_found, or_else}
use s2_decentralised_storage.Tracker.{is_empty}

pub record ClientConfig : Type 0 where
  pub peers : List PeerEndpoint
  pub chunk_size : ℕ
  pub desired_replicas : ℤ
  pub rsa_public_key_path : Bytes
  pub rsa_private_key_path : Bytes
  pub local_manifest_dir : Bytes

-- What `putFile` and `getFile` throw, by the step that fails.
pub data Error : Type 0 where
  no_peers no_manifest no_private_key bad_key no_output no_chunk not_supported : Error
  bad_id key_failed encryption_failed no_input bad_chunking peer_failed no_manifest_dir : Error

pub data Result {ℓ} (A : Type ℓ) : Type ℓ where
  ok : A → Result A
  throw : Error → Result A

infixl 5 ◌>>=◌
abbrev pub ◌>>=◌ {ℓ κ} : {A : Type ℓ} {B : Type κ} → Result A → (A → Result B) → Result B
ok a >>= f = f a
throw e >>= f = throw e

unfoldable pub ensure {ℓ} : {A : Type ℓ} → Error → Option A → Result A
ensure e none = throw e
ensure e (some a) = ok a

unfoldable pub normalize_manifest_id : Bytes → Bytes
normalize_manifest_id ref = or_else (strip_prefix (codes "dss://file/") ref) ref

unfoldable pub same_int : ℤ → ℤ → Bool
same_int (pos m) (pos n) = m == n
same_int (negsuc m) (negsuc n) = m == n
same_int _ _ = false

-- `c.ip == p.ip && c.port == p.port`
unfoldable pub same_endpoint : PeerEndpoint → PeerEndpoint → Bool
unfolding same_int
same_endpoint c p = ite (bytes_discrete c.ip p.ip) (same_int c.port p.port) false

unfoldable pub is_candidate : PeerEndpoint → List PeerEndpoint → Bool
unfolding same_endpoint
is_candidate p [] = false
is_candidate p (c ∷ cs) = if same_endpoint c p then true else is_candidate p cs

-- Every peer of the configuration that is not yet a candidate becomes the last one.
unfoldable pub with_all_peers : List PeerEndpoint → List PeerEndpoint → List PeerEndpoint
unfolding is_candidate
with_all_peers candidates [] = candidates
with_all_peers candidates (p ∷ ps) =
    with_all_peers (if is_candidate p candidates then candidates else candidates ++ p ∷ []) ps

module _ (sha : Sha256) (ssl : OpenSsl) {World : Type 0}
    (call : World → PeerEndpoint → Bytes → World × Reply) (can_alloc : ℕ → Bool) where
  -- The candidates for a key: those that the DHT names, then all others.
  unfoldable pub candidates_for : DhtNode → ClientConfig → Bytes → Result (List PeerEndpoint)
  candidates_for dht cfg key = do
    named ← ensure bad_id (Node.find_value sha dht key (pos (at_least_one cfg.desired_replicas)))
    ok (with_all_peers named cfg.peers)

  -- A peer's manifest, if it has the hash that was asked for and can be parsed.
  unfoldable pub accept_manifest : Bytes → Client.Result Bytes → Option Manifest
  accept_manifest id (Client.throw _) = none
  accept_manifest id (Client.ok text) =
      ite (bytes_discrete (sha256_hex sha text) id)
        (elim (parse_manifest_text text) [ Manifest.ok m ↦ some m | Manifest.throw _ ↦ none ]) none

  unfoldable pub find_manifest : World → List PeerEndpoint → Bytes → World × Option Manifest
  find_manifest w [] id = (w, none)
  find_manifest w (p ∷ ps) id =
      let (w', reply) = Client.get_manifest call can_alloc w p id in
      let rest = find_manifest w' ps id in
      elim (accept_manifest id reply) [ none ↦ rest | some m ↦ (w', some m) ]

  -- A peer's chunk in the clear; without a key it is taken as it is.
  unfoldable pub open_chunk : Option FileEncryptionParams → ℕ → Bytes → Option Bytes
  open_chunk none idx enc_data = some enc_data
  open_chunk (some params) idx enc_data =
      elim (aes_gcm_decrypt ssl enc_data params.key params.iv idx) [
        | Hybrid.ok plain ↦ some plain
        | Hybrid.throw _ ↦ none
      ]

  unfoldable pub check_chunk : Bytes → Option Bytes → Option Bytes
  check_chunk id none = none
  check_chunk id (some plain) = ite (bytes_discrete (sha256_hex sha plain) id) (some plain) none

  unfoldable pub accept_chunk :
      Option FileEncryptionParams → ℕ → Bytes → Client.Result Bytes → Option Bytes
  unfolding check_chunk open_chunk
  accept_chunk key idx id (Client.throw _) = none
  accept_chunk key idx id (Client.ok enc_data) = check_chunk id (open_chunk key idx enc_data)

  -- The first candidate with a good chunk.
  unfoldable pub find_chunk :
      World → Option FileEncryptionParams → ℕ → List PeerEndpoint → Bytes → World × Option Bytes
  find_chunk w key idx [] id = (w, none)
  find_chunk w key idx (p ∷ ps) id =
      let (w', reply) = Client.get_chunk call can_alloc w p id in
      let rest = find_chunk w' key idx ps id in
      elim (accept_chunk key idx id reply) [ none ↦ rest | some plain ↦ (w', some plain) ]

  -- The loop over the entries: what is written to the file, and whether a chunk was missing.
  unfoldable pub get_chunks :
      World
      → DhtNode
      → ClientConfig
      → Option FileEncryptionParams
      → ℕ
      → List ManifestEntry
      → World × Bytes × Result (Unit {0})
  get_chunks w dht cfg key idx [] = (w, [], ok tt)
  get_chunks w dht cfg key idx (e ∷ es) = elim (candidates_for dht cfg e.chunk_id) [
    | throw err ↦ (w, [], throw err)
    | ok candidates ↦
        let (w', found) = find_chunk w key idx candidates e.chunk_id in
        let (w2, written, result) = get_chunks w' dht cfg key (idx + 1) es in
        elim found [ none ↦ (w', [], throw no_chunk) | some plain ↦ (w2, plain ++ written, result) ]
  ]

  -- A local file, or else what the peers have under the hash.
  unfoldable pub resolve_manifest :
      World → FileSystem → DhtNode → ClientConfig → Bytes → World × Result Manifest
  resolve_manifest w fs dht cfg ref =
      if is_found (read_file fs ref) || fs.is_dir ref
      then (
        w,
        elim (read_manifest fs ref) [ Manifest.ok m ↦ ok m | Manifest.throw _ ↦ throw no_manifest ],
      )
      else elim (candidates_for dht cfg (codes "manifest:" ++ normalize_manifest_id ref)) [
        | throw e ↦ (w, throw e)
        | ok candidates ↦
            let (w', m) = find_manifest w candidates (normalize_manifest_id ref) in
            (w', ensure no_manifest m)
      ]

  -- The key of the file, none if its manifest says that it is not encrypted.
  unfoldable pub unwrap_key : ClientConfig → Manifest → Result (Option FileEncryptionParams)
  unwrap_key cfg m =
      if m.encrypted && not (is_empty m.encrypted_key_hex)
      then if is_empty cfg.rsa_private_key_path then throw no_private_key else (do
        blob ← ensure bad_key (Hex.from_hex m.encrypted_key_hex)
        elim (decrypt_file_key_rsa ssl (record { alg = m.key_enc_algo; blob = blob })
            cfg.rsa_private_key_path) [
              | Hybrid.ok params ↦ ok (some params)
              | Hybrid.throw _ ↦ throw bad_key
            ])
      else ok none
