-- ===== src/Dss/Integrity.antt =====
-- Whatever the peers send, `getFile` writes only chunks with the hashes of the manifest.
use mathlib.Core.Path.{ap₂}
use s2_decentralised_storage.Prelude.{
  ℕ, ◌+◌, ◌≡◌, ◌≢◌, ◌⊎◌, refl, ap, ◌∙◌, Bool, Option, none, some, List, [], ◌∷◌, ◌++◌, map, Bytes,
  arith, Option-cases, inl, inr, bytes_discrete,
}
use s2_decentralised_storage.Crypto.Sha256.{Sha256, sha256_hex}
use s2_decentralised_storage.Crypto.Hybrid.{OpenSsl, FileEncryptionParams}
use s2_decentralised_storage.Dht.Id.{PeerEndpoint}
use s2_decentralised_storage.Dht.Node.{DhtNode}
use s2_decentralised_storage.Manifest.{ManifestEntry}
use s2_decentralised_storage.Peer.Client as Client
use s2_decentralised_storage.Peer.Client.{Reply}
use s2_decentralised_storage.Net.Socket.{flatten}
use s2_decentralised_storage.Dss.{
  ClientConfig, Error, Result, ok, throw, check_chunk, accept_chunk, open_chunk, find_chunk,
  get_chunks, candidates_for,
}

pub Result-cases {ℓ} :
    {A : Type ℓ} (r : Result A) → ((a : A) × (r ≡ ok a)) ⊎ ((e : Error) × (r ≡ throw e))
Result-cases (ok a) = inl (a, refl)
Result-cases (throw e) = inr (e, refl)

module _ (sha : Sha256) (ssl : OpenSsl) {World : Type 0}
    (call : World → PeerEndpoint → Bytes → World × Reply) (can_alloc : ℕ → Bool) where
  check_chunk_lem :
      (id plain : Bytes) (o : Option Bytes)
      → check_chunk sha ssl call can_alloc id o ≡ some plain
      → sha256_hex sha plain ≡ id
  unfolding check_chunk
  check_chunk_lem id plain none h = absurd (ground arith)
  check_chunk_lem id plain (some p) h = elim (bytes_discrete (sha256_hex sha p) id) [
    | yes e ↦ ground (arith, h, e)
    | no ne ↦ absurd (ground (arith, h))
  ]

  accept_chunk_lem :
      (key : Option FileEncryptionParams) (idx : ℕ) (id plain : Bytes) (reply : Client.Result Bytes)
      → accept_chunk sha ssl call can_alloc key idx id reply ≡ some plain
      → sha256_hex sha plain ≡ id
  unfolding accept_chunk
  accept_chunk_lem key idx id plain (Client.throw e) h = absurd (ground arith)
  accept_chunk_lem key idx id plain (Client.ok d) h =
      check_chunk_lem id plain (open_chunk sha ssl call can_alloc key idx d) h

  -- A chunk that `find_chunk` returns has the hash.
  find_chunk_lem :
      (w : World) (key : Option FileEncryptionParams) (idx : ℕ) (ps : List PeerEndpoint)
      (id plain : Bytes)
      → (find_chunk sha ssl call can_alloc w key idx ps id).1 ≡ some plain
      → sha256_hex sha plain ≡ id
  unfolding find_chunk
  find_chunk_lem w key idx [] id plain h = absurd (ground arith)
  find_chunk_lem w key idx (p ∷ ps) id plain h =
      let r = Client.get_chunk call can_alloc w p id in
      elim (Option-cases (accept_chunk sha ssl call can_alloc key idx id r.1)) [
        | inl bad ↦ find_chunk_lem r.0 key idx ps id plain (rw (bad, find_chunk) at h)
        | inr (good, e) ↦ accept_chunk_lem key idx id plain r.1 (e ∙ rw (e, find_chunk) at h)
      ]

  -- Whatever the peers and the network do: when the loop of `getFile` ends without an exception, what
  -- it has written is the concatenation of plain chunks whose SHA-256 texts are the chunk ids of the
  -- manifest, in its order.
  pub get_chunks_lem :
      (w : World) (dht : DhtNode) (cfg : ClientConfig) (key : Option FileEncryptionParams) (idx : ℕ)
      (es : List ManifestEntry)
      → (get_chunks sha ssl call can_alloc w dht cfg key idx es).2 ≡ ok tt
      → (plains : List Bytes) × ((get_chunks sha ssl call can_alloc w dht cfg key idx es).1
          ≡ flatten plains)
        × (map (sha256_hex sha) plains ≡ map (λ e. e.chunk_id) es)
  unfolding get_chunks flatten
  get_chunks_lem w dht cfg key idx [] h = ([], refl, refl)
  get_chunks_lem w dht cfg key idx (e ∷ es) h =
      elim (Result-cases (candidates_for sha ssl call can_alloc dht cfg e.chunk_id)) [
        | inr (err, failed) ↦ absurd (ground (arith, rw (failed, get_chunks) at h))
        | inl (cs, named) ↦
            let found = find_chunk sha ssl call can_alloc w key idx cs e.chunk_id in
            elim (Option-cases found.1) [
              | inl missing ↦ absurd (ground (arith, rw (named, missing, get_chunks) at h))
              | inr (plain, good) ↦
                  let rest : (get_chunks sha ssl call can_alloc found.0 dht cfg key (idx + 1) es).2
                      ≡ ok tt =
                    rw (named, good, get_chunks) at h in
                  let (plains, out, ids) = get_chunks_lem found.0 dht cfg key (idx + 1) es rest in
                  (
                    plain ∷ plains,
                    rw (named, get_chunks) (rw (good) (ap (λ t. plain ++ t) out)),
                    ap₂ ◌∷◌ (find_chunk_lem w key idx cs e.chunk_id plain good) ids,
                  )
            ]
      ]

  -- If there is a candidate that answers with a good chunk, whatever the state of the network, then a
  -- good chunk is found, however the candidates before it answer.
  pub find_chunk_total :
      (w : World) (key : Option FileEncryptionParams) (idx : ℕ) (before after : List PeerEndpoint)
      (p : PeerEndpoint) (id : Bytes)
      → ((v : World)
          → accept_chunk sha ssl call can_alloc key idx id
              (Client.get_chunk call can_alloc v p id).1
            ≢ none)
      → (plain : Bytes) × ((find_chunk sha ssl call can_alloc w key idx (before ++ p ∷ after) id).1
          ≡ some plain)
        × (sha256_hex sha plain ≡ id)
  unfolding find_chunk
  find_chunk_total w key idx [] after p id good =
      elim (Option-cases (
        accept_chunk sha ssl call can_alloc key idx id
          (Client.get_chunk call can_alloc w p id).1)) [
            | inl bad ↦ absurd (good w bad)
            | inr (plain, e) ↦
                let found : (find_chunk sha ssl call can_alloc w key idx (p ∷ after) id).1
                    ≡ some plain =
                  rw (e, find_chunk) in
                (plain, found, find_chunk_lem w key idx (p ∷ after) id plain found)
          ]
  find_chunk_total w key idx (q ∷ before) after p id good =
      let r = Client.get_chunk call can_alloc w q id in
      elim (Option-cases (accept_chunk sha ssl call can_alloc key idx id r.1)) [
        | inl bad ↦
            let (plain, found, hash) = find_chunk_total r.0 key idx before after p id good in
            (plain, rw (bad, find_chunk) found, hash)
        | inr (plain, e) ↦
            let found : (find_chunk sha ssl call can_alloc w key idx (q ∷ before ++ p ∷ after) id).1
                ≡ some plain =
              rw (e, find_chunk) in
            (plain, found, find_chunk_lem w key idx (q ∷ before ++ p ∷ after) id plain found)
      ]
