-- ===== src/Dss/RoundTrip.antt =====
-- What `putFile` lists in the manifest, and that `getFile` writes the file again.
use mathlib.Core.Path.{ap₂}
use s2_decentralised_storage.Prelude.{
  ℕ, Bool, ◌+◌, ◌≡◌, refl, ap, ◌∙◌, Option, some, List, [], ◌∷◌, ◌++◌, map, Bytes, arith,
  Option-cases, inl, inr, All,
}
use s2_decentralised_storage.Cpp.Int.{pos}
use s2_decentralised_storage.FileSystem.{FileSystem, read_file}
use s2_decentralised_storage.Crypto.Sha256.{Sha256, sha256_hex}
use s2_decentralised_storage.Crypto.Hybrid.{OpenSsl, FileEncryptionParams}
use s2_decentralised_storage.Dht.Id.{PeerEndpoint}
use s2_decentralised_storage.Dht.Node as Node
use s2_decentralised_storage.Dht.Node.{DhtNode}
use s2_decentralised_storage.Manifest.{ManifestEntry}
use s2_decentralised_storage.Chunk as Chunk
use s2_decentralised_storage.Chunk.{Chunk, chunk_file}
use s2_decentralised_storage.Chunk.Cut.{join, chunk_file_inv}
use s2_decentralised_storage.Peer.Client.{Reply}
use s2_decentralised_storage.Net.Socket.{flatten}
use s2_decentralised_storage.Dss.{ClientConfig, ok, get_chunks}
use s2_decentralised_storage.Dss.Integrity.{Result-cases, get_chunks_lem}
use s2_decentralised_storage.Dss.Transfer.{upload, put_chunks}

pub cons_parts :
    {x y : Bytes} {xs ys : List Bytes}
    → ◌≡◌ {A = List Bytes} (x ∷ xs) (y ∷ ys)
    → (x ≡ y) × (xs ≡ ys)
cons_parts e = (cc, cc)

module _ (sha : Sha256) (ssl : OpenSsl) {World : Type 0}
    (call : World → PeerEndpoint → Bytes → World × Reply) (can_alloc : ℕ → Bool) where
  -- The entries that `putFile` makes are the SHA-256 texts of the chunks, in their order.
  pub put_chunks_lem :
      (w : World) (dht : DhtNode) (key : Option FileEncryptionParams) (replicas idx : ℕ)
      (cs : List Chunk) (es : List ManifestEntry)
      → (put_chunks sha ssl call can_alloc w dht key replicas idx cs).1 ≡ ok es
      → map (λ e. e.chunk_id) es ≡ map (λ c. sha256_hex sha c.bytes) cs
  unfolding put_chunks
  put_chunks_lem w dht key replicas idx [] [] h = refl
  put_chunks_lem w dht key replicas idx [] (e ∷ es) h = absurd (ground arith)
  put_chunks_lem w dht key replicas idx (c ∷ cs) es h =
      let cid = sha256_hex sha c.bytes in
      elim (Option-cases (Node.store sha dht cid (pos replicas))) [
        | inl failed ↦ absurd (ground (arith, rw (failed, put_chunks) at h))
        | inr (targets, placed) ↦
            let sent = upload sha ssl call can_alloc w key replicas idx cid c.bytes targets in
            let rest = put_chunks sha ssl call can_alloc sent.0 dht key replicas (idx + 1) cs in
            elim (Result-cases sent.1) [
              | inr (e, bad) ↦ absurd (ground (arith, rw (placed, bad, put_chunks) at h))
              | inl (u, good) ↦ elim (Result-cases rest.1) [
                | inr (e, bad) ↦ absurd (ground (arith, rw (placed, good, bad, put_chunks) at h))
                | inl (fs, made) ↦
                    let same : es ≡ record { chunk_id = cid } ∷ fs =
                      ground (arith, rw (placed, good, made, put_chunks) at h) in
                    ap (map (λ e. e.chunk_id)) same
                    ∙ ap (◌∷◌ cid) (put_chunks_lem sent.0 dht key replicas (idx + 1) cs fs made)
              ]
            ]
      ]

  -- No other text has the digest of one of the chunks.
  abbrev pub AreUnmatched : List Chunk → Type 0
  AreUnmatched = All (λ c. (p : Bytes) → sha256_hex sha p ≡ sha256_hex sha c.bytes → p ≡ c.bytes)

  flatten-join :
      (plains : List Bytes) (cs : List Chunk)
      → AreUnmatched cs
      → map (sha256_hex sha) plains ≡ map (λ c. sha256_hex sha c.bytes) cs
      → flatten plains ≡ join cs
  unfolding flatten join
  flatten-join [] [] u h = refl
  flatten-join [] (c ∷ cs) u h = absurd (ground arith)
  flatten-join (p ∷ plains) [] u h = absurd (ground arith)
  flatten-join (p ∷ plains) (c ∷ cs) (one, u) h =
      let (here, there) = cons_parts h in ap₂ ◌++◌ (one p here) (flatten-join plains cs u there)

  -- A file that opens is cut, and all its chunks are put without an exception. Then, whatever the
  -- peers and the network do in between, a loop of `getFile` over the entries that ends without an
  -- exception has written the file, if no other text has the digest of one of its chunks.
  pub get_chunks-put_chunks :
      (fs : FileSystem) (path content : Bytes) (size : ℕ) (cs : List Chunk)
      (es : List ManifestEntry) (w v : World) (dht dht' : DhtNode)
      (key key' : Option FileEncryptionParams) (replicas : ℕ) (cfg : ClientConfig)
      → read_file fs path ≡ some content
      → chunk_file can_alloc fs path size ≡ Chunk.ok cs
      → (put_chunks sha ssl call can_alloc w dht key replicas 0 cs).1 ≡ ok es
      → AreUnmatched cs
      → (get_chunks sha ssl call can_alloc v dht' cfg key' 0 es).2 ≡ ok tt
      → (get_chunks sha ssl call can_alloc v dht' cfg key' 0 es).1 ≡ content
  get_chunks-put_chunks fs path content size cs es w v dht dht' key key' replicas cfg opens cut put
        u got =
      let (_, whole, _) = chunk_file_inv can_alloc fs path content size cs opens cut in
      let (plains, out, ids) = get_chunks_lem sha ssl call can_alloc v dht' cfg key' 0 es got in
      out ∙ flatten-join plains cs u (ids ∙ put_chunks_lem w dht key replicas 0 cs es put) ∙ whole
