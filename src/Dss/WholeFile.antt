-- ===== src/Dss/WholeFile.antt =====
-- A file that is put is got back, by its local manifest or by its address.
use s2_decentralised_storage.Prelude.{
  ℕ, ◌<◌, ◌≤◌, ◌≡◌, ◌≢◌, refl, sym, ap, subst, ◌∙◌, Bool, none, some, List, [], ◌∷◌, length-append,
  Bytes, length, arith,
}
use s2_decentralised_storage.Cpp.Stream.{IsWord}
use s2_decentralised_storage.Cpp.Decimal.{u64_mod}
use s2_decentralised_storage.FileSystem.{FileSystem, read_file}
use s2_decentralised_storage.Crypto.Sha256.{Sha256}
use s2_decentralised_storage.Crypto.Hybrid.{OpenSsl}
use s2_decentralised_storage.Dht.Id.{PeerEndpoint}
use s2_decentralised_storage.Manifest.{ManifestEntry}
use s2_decentralised_storage.Chunk as Chunk
use s2_decentralised_storage.Chunk.{Chunk, chunk_file}
use s2_decentralised_storage.Chunk.Cut.{join, IsCut, chunk_file_inv}
use s2_decentralised_storage.Peer.Client.{Reply}
use s2_decentralised_storage.Dss.{ClientConfig, ok}
use s2_decentralised_storage.Dss.Transfer.{
  PutFileResult, base_name, params_of, clamp_replicas, manifest_of, put_file, get_file,
}
use s2_decentralised_storage.Dss.RoundTrip.{AreUnmatched, put_chunks_lem, get_chunks-put_chunks}
use s2_decentralised_storage.Dss.Puts.{Keys, put_file_inv}
use s2_decentralised_storage.Dss.Gets.{get_file_inv}
use s2_decentralised_storage.Dss.Resolve.{Denotes, Denotes-manifest}
use s2_decentralised_storage.Dss.Printable.{
  entries_lem, make_key-IsPrintableKey, manifest_of-IsPrintable,
}

-- A cut file has no more chunks than bytes.
IsCut-le : (size : ℕ) (cs : List Chunk) → IsCut size cs → length cs ≤ length (join cs)
unfolding join
IsCut-le size [] h = omega arith
IsCut-le size (c ∷ []) (a, b) = omega (arith, a, length-append c.bytes [])
IsCut-le size (c ∷ d ∷ cs) (a, _, h) =
    omega (arith, a, length-append c.bytes (join (d ∷ cs)), IsCut-le size (d ∷ cs) h)

pub same_chunks : {a b : List Chunk} → Chunk.ok a ≡ Chunk.ok b → a ≡ b
same_chunks h = ground (arith, h)

module _ (sha : Sha256) (ssl : OpenSsl) {World : Type 0}
    (call : World → PeerEndpoint → Bytes → World × Reply) (can_alloc : ℕ → Bool) where
  manifest_of-chunks :
      (cfg : ClientConfig) (path : Bytes) (size : ℕ) (key : Keys sha ssl call can_alloc)
      (es : List ManifestEntry)
      → (manifest_of sha ssl call can_alloc cfg path size key es).chunks ≡ es
  unfolding manifest_of
  manifest_of-chunks cfg path size none es = refl
  manifest_of-chunks cfg path size (some (params, ek)) es = refl

  -- A file, whose name is a word and whose size and chunk size have 64 bits, was put without an
  -- exception, encrypted or not. Later, with any configuration and whatever the network and the
  -- peers did in between, a `getFile` on the address or on the local manifest of the result that
  -- ends without an exception has written exactly the bytes of the file, if no other text has the
  -- digest of one of its chunks, RSA never gives an empty text, the local manifest was left as it
  -- was, and the address names no local file and no two texts have its digest.
  pub get_file-put_file :
      (rsa : (k t c : Bytes) → ssl.rsa_encrypt k t ≡ some c → c ≢ []) (w w' : World)
      (fs fs' : FileSystem) (cfg : ClientConfig) (path content : Bytes) (r : PutFileResult)
      (v v' : World) (now after : FileSystem) (reader : ClientConfig) (ref out : Bytes)
      → read_file fs path ≡ some content
      → IsWord (base_name [] path)
      → length content < u64_mod
      → cfg.chunk_size < u64_mod
      → ((cs : List Chunk)
          → chunk_file can_alloc fs path cfg.chunk_size ≡ Chunk.ok cs
          → AreUnmatched sha ssl call can_alloc cs)
      → put_file sha ssl call can_alloc w fs cfg path ≡ (w', fs', ok r)
      → Denotes sha ssl call can_alloc fs' now r ref
      → get_file sha ssl call can_alloc v now reader ref out ≡ (v', after, ok tt)
      → read_file after out ≡ some content
  get_file-put_file rsa w w' fs fs' cfg path content r v v' now after reader ref out opens name fits
        chunk unmatched put denotes got =
      let p = put_file_inv sha ssl call can_alloc w w' fs fs' cfg path content r opens put in
      let g = get_file_inv sha ssl call can_alloc v v' now after reader ref out got in
      let (_, whole, pieces) =
        chunk_file_inv can_alloc fs path content cfg.chunk_size p.chunks opens p.cut in
      let few : length p.chunks ≤ length content =
        subst (λ text. length p.chunks ≤ length text) whole
          (IsCut-le cfg.chunk_size p.chunks pieces) in
      let (words, count) = entries_lem sha p.entries p.chunks (
        put_chunks_lem sha ssl call can_alloc p.before p.node
          (params_of sha ssl call can_alloc p.key) (clamp_replicas cfg) 0 p.chunks p.entries
          p.sent) in
      let printable =
        manifest_of-IsPrintable sha ssl call can_alloc cfg path (length content) p.key p.entries
          name fits chunk (omega (arith, fits, few, count)) words
          (make_key-IsPrintableKey sha ssl call can_alloc cfg p.key rsa p.made) in
      let found =
        Denotes-manifest sha ssl call can_alloc fs' now r ref v g.node reader fs _ g.manifest
          printable p.kept p.uri denotes g.resolved in
      let listed : g.manifest.chunks ≡ p.entries =
        ap (λ m. m.chunks) found ∙ manifest_of-chunks cfg path (length content) p.key p.entries in
      g.written
      ∙ ap some (
          get_chunks-put_chunks sha ssl call can_alloc fs path content cfg.chunk_size p.chunks
            g.manifest.chunks p.before g.after p.node g.node
            (params_of sha ssl call can_alloc p.key) g.key (clamp_replicas cfg) reader opens p.cut
            (p.sent ∙ ap ok (sym listed)) (unmatched p.chunks p.cut) g.fetched)
