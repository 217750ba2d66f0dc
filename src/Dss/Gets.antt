-- ===== src/Dss/Gets.antt =====
-- What a `getFile` that does not throw has done.
use s2_decentralised_storage.Prelude.{
  ℕ, ◌≡◌, refl, sym, ap, ◌∙◌, Bool, true, Bool-cases, Option, some, [], Bytes, arith, Option-cases,
  inl, inr, bytes_discrete, if_pos,
}
use s2_decentralised_storage.FileSystem.{
  FileSystem, read_file, write_file, read_file-write_file, write_file_total,
}
use s2_decentralised_storage.Crypto.Sha256.{Sha256}
use s2_decentralised_storage.Crypto.Hybrid.{OpenSsl, FileEncryptionParams}
use s2_decentralised_storage.Dht.Id.{PeerEndpoint}
use s2_decentralised_storage.Dht.Node as Node
use s2_decentralised_storage.Dht.Node.{DhtNode}
use s2_decentralised_storage.Manifest.{Manifest}
use s2_decentralised_storage.Peer.Client.{Reply}
use s2_decentralised_storage.Storage.{or_else}
use s2_decentralised_storage.Tracker.{is_empty}
use s2_decentralised_storage.Dss.{
  ClientConfig, Result, ok, throw, unwrap_key, resolve_manifest, get_chunks,
}
use s2_decentralised_storage.Dss.Integrity.{Result-cases}
use s2_decentralised_storage.Dss.Transfer.{get_content, with_key, get_file}

write_file-can_write :
    (fs fs' : FileSystem) (p text : Bytes)
    → write_file fs p text ≡ some fs'
    → fs'.can_write p ≡ true
unfolding write_file or_else
write_file-can_write fs fs' p text h = elim (Bool-cases (fs.can_write p)) [
  | inl can ↦ ap (λ o. (or_else o fs).can_write p) (sym h) ∙ rw can can
  | inr cannot ↦ absurd (ground (arith, h, cannot))
]

-- A file that can be written has the text that is written to it.
read_file-or_else :
    (fs : FileSystem) (p text : Bytes)
    → fs.can_write p ≡ true
    → read_file (or_else (write_file fs p text) fs) p ≡ some text
unfolding or_else
read_file-or_else fs p text can = elim (Option-cases (write_file fs p text)) [
  | inl bad ↦ absurd (write_file_total fs p text can bad)
  | inr (fs', good) ↦
      ap (λ o. read_file (or_else o fs) p) good
      ∙ read_file-write_file fs p p text good
      ∙ if_pos (bytes_discrete p p) refl (some text) (read_file fs p)
]

middle-last {ℓ} :
    {A B C : Type ℓ} {a a' : A} {b b' : B} {c c' : C}
    → ◌≡◌ {A = A × B × C} (a, b, c) (a', b', c')
    → (b ≡ b') × (c ≡ c')
middle-last h = (ap (λ t. t.1) h, ap (λ t. t.2) h)

module _ (sha : Sha256) (ssl : OpenSsl) {World : Type 0}
    (call : World → PeerEndpoint → Bytes → World × Reply) (can_alloc : ℕ → Bool) where
  -- The manifest that was found, and the loop over its entries, which ended well and whose bytes are
  -- in the file.
  pub record WasGot (v : World) (fs fs' : FileSystem) (cfg : ClientConfig) (ref out : Bytes)
      : Type 0 where
    pub node : DhtNode
    pub manifest : Manifest
    pub after : World
    pub key : Option FileEncryptionParams
    pub resolved : (resolve_manifest sha ssl call can_alloc v fs node cfg ref).1 ≡ ok manifest
    pub fetched : (get_chunks sha ssl call can_alloc after node cfg key 0 manifest.chunks).2 ≡ ok tt
    pub written :
        read_file fs' out
        ≡ some (get_chunks sha ssl call can_alloc after node cfg key 0 manifest.chunks).1

  get_content_inv :
      (v v' : World) (fs fs' : FileSystem) (node : DhtNode) (cfg : ClientConfig) (out : Bytes)
      (m : Manifest) (key : Option FileEncryptionParams)
      → get_content sha ssl call can_alloc v fs node cfg out m key ≡ (v', fs', ok tt)
      → ((get_chunks sha ssl call can_alloc v node cfg key 0 m.chunks).2 ≡ ok tt)
        × (read_file fs' out ≡ some (get_chunks sha ssl call can_alloc v node cfg key 0 m.chunks).1)
  unfolding get_content
  get_content_inv v v' fs fs' node cfg out m key h = elim (Option-cases (write_file fs out [])) [
    | inl bad ↦ absurd (ground (arith, rw (bad, get_content) at h))
    | inr (opened, good) ↦
        let (files, ended) = middle-last (rw (good, get_content) at h) in
        let text = (get_chunks sha ssl call can_alloc v node cfg key 0 m.chunks).1 in
        (
          ended,
          ap (λ f. read_file f out) (sym files)
              ∙ read_file-or_else opened out text (write_file-can_write fs opened out [] good),
        )
  ]

  with_key_inv :
      (cfg : ClientConfig) (r : Result Manifest) (m : Manifest) (key : Option FileEncryptionParams)
      → with_key sha ssl call can_alloc cfg r ≡ ok (m, key)
      → r ≡ ok m
  unfolding with_key
  with_key_inv cfg (throw e) m key h = absurd (ground (arith, h))
  with_key_inv cfg (ok a) m key h = elim (Result-cases (unwrap_key sha ssl call can_alloc cfg a)) [
    | inr (e, bad) ↦ absurd (ground (arith, h, bad))
    | inl (k, good) ↦ ground (arith, h, good)
  ]

  pub get_file_inv :
      (v v' : World) (fs fs' : FileSystem) (cfg : ClientConfig) (ref out : Bytes)
      → get_file sha ssl call can_alloc v fs cfg ref out ≡ (v', fs', ok tt)
      → WasGot v fs fs' cfg ref out
  unfolding get_file with_key
  get_file_inv v v' fs fs' cfg ref out h = elim (Bool-cases (is_empty cfg.peers)) [
    | inl alone ↦ absurd (ground (arith, h, alone))
    | inr peers ↦ elim (Option-cases (Node.create sha cfg.peers)) [
      | inl bad ↦ absurd (ground (arith, rw (peers, bad, get_file) at h))
      | inr (node, good) ↦
          let found = resolve_manifest sha ssl call can_alloc v fs node cfg ref in
          elim (Result-cases (with_key sha ssl call can_alloc cfg found.1)) [
            | inr (e, failed) ↦ absurd (ground (arith, rw (peers, good, failed, get_file) at h))
            | inl ((m, key), opened) ↦
                let (fetched, written) =
                  get_content_inv found.0 v' fs fs' node cfg out m key
                    (rw (peers, good, opened, get_file) at h) in
                record {
                  node = node;
                  manifest = m;
                  after = found.0;
                  key = key;
                  resolved = with_key_inv cfg found.1 m key opened;
                  fetched = fetched;
                  written = written;
                }
          ]
    ]
  ]
