-- ===== src/Dss/Puts.antt =====
-- What a `putFile` that does not throw has done.
use s2_decentralised_storage.Prelude.{
  ℕ, ◌≡◌, refl, sym, ap, ◌∙◌, Bool, Bool-cases, Option, some, List, ◌∷◌, ◌++◌, Bytes, codes, length,
  arith, Option-cases, inl, inr, if◌then◌else◌,
}
use s2_decentralised_storage.Cpp.Int.{pos}
use s2_decentralised_storage.FileSystem.{FileSystem, read_file}
use s2_decentralised_storage.Crypto.Sha256.{Sha256, sha256_hex}
use s2_decentralised_storage.Crypto.Hybrid.{OpenSsl, FileEncryptionParams, EncryptedKey}
use s2_decentralised_storage.Dht.Id.{PeerEndpoint}
use s2_decentralised_storage.Dht.Node as Node
use s2_decentralised_storage.Dht.Node.{DhtNode}
use s2_decentralised_storage.Manifest as Manifest
use s2_decentralised_storage.Manifest.{Manifest, ManifestEntry, serialize_manifest, write_manifest}
use s2_decentralised_storage.Chunk as Chunk
use s2_decentralised_storage.Chunk.{Chunk, chunk_file}
use s2_decentralised_storage.Peer.Client.{Reply}
use s2_decentralised_storage.Tracker.{is_empty}
use s2_decentralised_storage.Dss.{
  ClientConfig, Result, ok, throw, ensure, ◌>>=◌, bad_id, no_input, no_output,
}
use s2_decentralised_storage.Dss.Integrity.{Result-cases}
use s2_decentralised_storage.Dss.Transfer.{
  PutFileResult, clamp_replicas, from_chunks, put_chunks, put_manifests, make_key, manifest_of,
  params_of, keep_manifest, put_content, prepare, put_file,
}

from_chunks_inv :
    (r : Chunk.Result (List Chunk)) (cs : List Chunk) → from_chunks r ≡ ok cs → r ≡ Chunk.ok cs
unfolding from_chunks
from_chunks_inv (Chunk.ok ds) cs h = ground (arith, h)
from_chunks_inv (Chunk.throw e) cs h = absurd (ground (arith, h))

pub >>=-eq-ok {ℓ κ} :
    {A : Type ℓ} {B : Type κ} (r : Result A) (f : A → Result B) {b : B}
    → (r >>= f) ≡ ok b
    → (a : A) × (r ≡ ok a) × (f a ≡ ok b)
>>=-eq-ok (throw e) f h = absurd (ground (arith, h))
>>=-eq-ok (ok a) f h = (a, refl, h)

ok-parts {ℓ} :
    {A B C D : Type ℓ} {a a' : A} {b b' : B} {c c' : C} {d d' : D}
    → ◌≡◌ {A = Result (A × B × C × D)} (ok (a, b, c, d)) (ok (a', b', c', d'))
    → (b ≡ b') × (c ≡ c') × (d ≡ d')
ok-parts h = (ground (arith, h), ground (arith, h), ground (arith, h))

tail_of {ℓ} :
    {A B C : Type ℓ} {a a' : A} {b b' : B} {c c' : C}
    → ◌≡◌ {A = A × B × C} (a, b, c) (a', b', c')
    → ◌≡◌ {A = B × C} (b, c) (b', c')
tail_of h = ap (λ t. (t.1, t.2)) h

end_of_inv :
    (fs fs' : FileSystem) (q r : PutFileResult) (o : Manifest.Result FileSystem)
    → ◌≡◌ {A = FileSystem × Result PutFileResult}
        (elim o [
          | Manifest.throw _ ↦ (fs, throw no_output)
          | Manifest.ok written ↦ (written, ok q)
        ])
        (fs', ok r)
    → (o ≡ Manifest.ok fs') × (q ≡ r)
end_of_inv fs fs' q r (Manifest.throw e) h = absurd (ground (arith, h))
end_of_inv fs fs' q r (Manifest.ok written) h = (ground (arith, h), ground (arith, h))

module _ (sha : Sha256) (ssl : OpenSsl) {World : Type 0}
    (call : World → PeerEndpoint → Bytes → World × Reply) (can_alloc : ℕ → Bool) where
  abbrev pub Keys : Type 0
  Keys = Option (FileEncryptionParams × EncryptedKey)

  prepare_inv :
      (fs : FileSystem) (cfg : ClientConfig) (path content : Bytes) (dht : DhtNode) (read : Bytes)
      (key : Keys) (cs : List Chunk)
      → read_file fs path ≡ some content
      → prepare sha ssl call can_alloc fs cfg path ≡ ok (dht, read, key, cs)
      → (read ≡ content)
        × (make_key sha ssl call can_alloc cfg ≡ ok key)
        × (chunk_file can_alloc fs path cfg.chunk_size ≡ Chunk.ok cs)
  unfolding prepare ensure
  prepare_inv fs cfg path content dht read key cs opens h =
      let (node, _, h1) = >>=-eq-ok (ensure bad_id (Node.create sha cfg.peers)) _ h in
      let (got, e2, h2) = >>=-eq-ok (ensure no_input (read_file fs path)) _ h1 in
      let (k, e3, h3) = >>=-eq-ok (make_key sha ssl call can_alloc cfg) _ h2 in
      let (chunks, e4, h4) =
        >>=-eq-ok (from_chunks (chunk_file can_alloc fs path cfg.chunk_size)) _ h3 in
      let (same, k_same, c_same) = ok-parts h4 in
      (
        sym same ∙ ground (arith, e2, opens),
        e3 ∙ ap ok k_same,
        from_chunks_inv (chunk_file can_alloc fs path cfg.chunk_size) cs (e4 ∙ ap ok c_same),
      )

  -- The local copy is the file that the result names.
  keep_manifest_inv :
      (fs fs' : FileSystem) (cfg : ClientConfig) (m : Manifest) (hash : Bytes) (r : PutFileResult)
      → keep_manifest sha ssl call can_alloc fs cfg m hash ≡ (fs', ok r)
      → (write_manifest fs r.local_manifest_path m ≡ Manifest.ok fs')
        × (r.share_uri ≡ codes "dss://file/" ++ hash)
  unfolding keep_manifest
  keep_manifest_inv fs fs' cfg m hash r h =
      let dir =
        fs.absolute
          (if is_empty cfg.local_manifest_dir then codes "manifests" else cfg.local_manifest_dir) in
      let path = dir ++ b'/' ∷ (m.original_name ++ codes ".manifest.txt") in
      elim (Bool-cases (fs.is_dir dir)) [
        | inr missing ↦ absurd (ground (arith, h, missing))
        | inl there ↦
            let (written, same) =
              end_of_inv fs fs'
                (record { share_uri = codes "dss://file/" ++ hash; local_manifest_path = path }) r
                (write_manifest fs path m) (ground (arith, h, there)) in
            (
              ap (λ q. write_manifest fs q.local_manifest_path m) (sym same) ∙ written,
              ap (λ q. q.share_uri) (sym same),
            )
      ]

  pub record WasPut (fs fs' : FileSystem) (cfg : ClientConfig) (path content : Bytes)
      (r : PutFileResult) : Type 0 where
    pub before : World
    pub node : DhtNode
    pub key : Keys
    pub chunks : List Chunk
    pub entries : List ManifestEntry
    pub made : make_key sha ssl call can_alloc cfg ≡ ok key
    pub cut : chunk_file can_alloc fs path cfg.chunk_size ≡ Chunk.ok chunks
    pub sent :
        (put_chunks sha ssl call can_alloc before node
          (params_of sha ssl call can_alloc key)
          (clamp_replicas cfg)
          0
          chunks).1
        ≡ ok entries
    pub kept :
        write_manifest fs r.local_manifest_path
          (manifest_of sha ssl call can_alloc cfg path (length content) key entries)
        ≡ Manifest.ok fs'
    pub uri :
        r.share_uri
        ≡ codes "dss://file/"
          ++ sha256_hex sha (
              serialize_manifest
                (manifest_of sha ssl call can_alloc cfg path (length content) key entries))

  put_content_inv :
      (w w' : World) (fs fs' : FileSystem) (node : DhtNode) (cfg : ClientConfig)
      (path content : Bytes) (key : Keys) (cs : List Chunk) (r : PutFileResult)
      → make_key sha ssl call can_alloc cfg ≡ ok key
      → chunk_file can_alloc fs path cfg.chunk_size ≡ Chunk.ok cs
      → put_content sha ssl call can_alloc w fs node cfg path content key cs ≡ (w', fs', ok r)
      → WasPut fs fs' cfg path content r
  unfolding put_content
  put_content_inv w w' fs fs' node cfg path content key cs r made cut h =
      let put =
        put_chunks sha ssl call can_alloc w node (params_of sha ssl call can_alloc key)
          (clamp_replicas cfg) 0 cs in
      elim (Result-cases put.1) [
        | inr (e, bad) ↦ absurd (ground (arith, rw (bad, put_content) at h))
        | inl (es, sent) ↦
            let m = manifest_of sha ssl call can_alloc cfg path (length content) key es in
            let hash = sha256_hex sha (serialize_manifest m) in
            elim (Option-cases
              (Node.store sha node (codes "manifest:" ++ hash) (pos (clamp_replicas cfg)))) [
                | inl bad ↦ absurd (ground (arith, rw (sent, bad, put_content) at h))
                | inr (targets, placed) ↦
                    elim (Result-cases
                      (put_manifests sha ssl call can_alloc put.0 hash (serialize_manifest m)
                        targets).1) [
                          | inr (e, bad) ↦
                              absurd (ground (arith, rw (sent, placed, bad, put_content) at h))
                          | inl (u, good) ↦
                              let done : keep_manifest sha ssl call can_alloc fs cfg m hash
                                  ≡ (fs', ok r) =
                                tail_of (rw (sent, placed, good, put_content) at h) in
                              let (kept, uri) = keep_manifest_inv fs fs' cfg m hash r done in
                              record {
                                before = w;
                                node = node;
                                key = key;
                                chunks = cs;
                                entries = es;
                                made = made;
                                cut = cut;
                                sent = sent;
                                kept = kept;
                                uri = uri;
                              }
                        ]
              ]
      ]

  pub put_file_inv :
      (w w' : World) (fs fs' : FileSystem) (cfg : ClientConfig) (path content : Bytes)
      (r : PutFileResult)
      → read_file fs path ≡ some content
      → put_file sha ssl call can_alloc w fs cfg path ≡ (w', fs', ok r)
      → WasPut fs fs' cfg path content r
  unfolding put_file
  put_file_inv w w' fs fs' cfg path content r opens h = elim (Bool-cases (is_empty cfg.peers)) [
    | inl alone ↦ absurd (ground (arith, h, alone))
    | inr peers ↦ elim (Result-cases (prepare sha ssl call can_alloc fs cfg path)) [
      | inr (e, bad) ↦ absurd (ground (arith, rw (peers, bad, put_file) at h))
      | inl ((node, read, key, cs), ready) ↦
          let (same, made, cut) = prepare_inv fs cfg path content node read key cs opens ready in
          put_content_inv w w' fs fs' node cfg path content key cs r made cut (
            ap (λ c. put_content sha ssl call can_alloc w fs node cfg path c key cs) (sym same)
            ∙ rw (peers, ready, put_file) at h)
    ]
  ]
