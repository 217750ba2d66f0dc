-- ===== src/Dss/Resolve.antt =====
-- The manifest that `getFile` finds for a reference.
use s2_decentralised_storage.Prelude.{
  ℕ, ◌≡◌, ◌⊎◌, refl, sym, ap, ◌∙◌, Bool, false, Option, none, some, List, [], ◌∷◌, ◌++◌, Bytes,
  codes, arith, Option-cases, inl, inr, bytes_discrete, if_pos, if_neg, ◌||◌, ==_iff,
}
use s2_decentralised_storage.FileSystem.{FileSystem, read_file}
use s2_decentralised_storage.Crypto.Sha256.{Sha256, sha256_hex}
use s2_decentralised_storage.Crypto.Hybrid.{OpenSsl}
use s2_decentralised_storage.Dht.Id.{PeerEndpoint}
use s2_decentralised_storage.Dht.Node.{DhtNode}
use s2_decentralised_storage.Manifest as Manifest
use s2_decentralised_storage.Manifest.{
  Manifest, ManifestEntry, serialize_manifest, parse_manifest_text, read_manifest,
}
use s2_decentralised_storage.Manifest.RoundTrip.{
  IsPrintable, parse_manifest_text-serialize_manifest, read_manifest-write_manifest,
}
use s2_decentralised_storage.Peer.Client as Client
use s2_decentralised_storage.Peer.Client.{Reply}
use s2_decentralised_storage.Storage.{or_else, strip_prefix, is_found}
use s2_decentralised_storage.Dss.{
  ClientConfig, Result, ok, throw, ensure, no_manifest, normalize_manifest_id, accept_manifest,
  find_manifest, resolve_manifest, candidates_for,
}
use s2_decentralised_storage.Dss.Integrity.{Result-cases}
use s2_decentralised_storage.Dss.Transfer.{PutFileResult}

strip_prefix-append : (p s : Bytes) → strip_prefix p (p ++ s) ≡ some s
unfolding strip_prefix
strip_prefix-append [] s = refl
strip_prefix-append (c ∷ p) s = rw ((==_iff c c).1 refl) (strip_prefix-append p s)

normalize_manifest_id_uri :
    (hash : Bytes) → normalize_manifest_id (codes "dss://file/" ++ hash) ≡ hash
unfolding normalize_manifest_id or_else
normalize_manifest_id_uri hash = rw (strip_prefix-append (codes "dss://file/") hash) refl

read_manifest_same :
    (a b : FileSystem) (p : Bytes)
    → read_file a p ≡ read_file b p
    → read_manifest a p ≡ read_manifest b p
unfolding read_manifest
read_manifest_same a b p h =
    ap
      (λ o. elim o [
        | none ↦ Manifest.throw Manifest.open_for_read
        | some text ↦ parse_manifest_text text
      ])
      h

some_of_inv :
    (r : Manifest.Result Manifest) (m : Manifest)
    → elim r [ Manifest.ok m ↦ some m | Manifest.throw _ ↦ none ] ≡ some m
    → r ≡ Manifest.ok m
some_of_inv (Manifest.ok k) m h = ground (arith, h)
some_of_inv (Manifest.throw e) m h = absurd (ground (arith, h))

ok_of_inv :
    (r : Manifest.Result Manifest) (m : Manifest)
    → ◌≡◌ {A = Result Manifest}
        (elim r [ Manifest.ok m ↦ ok m | Manifest.throw _ ↦ throw no_manifest ])
        (ok m)
    → r ≡ Manifest.ok m
ok_of_inv (Manifest.ok k) m h = ground (arith, h)
ok_of_inv (Manifest.throw e) m h = absurd (ground (arith, h))

ensure_inv {ℓ} : {A : Type ℓ} (o : Option A) (a : A) → ensure no_manifest o ≡ ok a → o ≡ some a
unfolding ensure
ensure_inv none a h = absurd (ground (arith, h))
ensure_inv (some b) a h = ground (arith, h)

same_manifest : {m k : Manifest} → Manifest.ok m ≡ Manifest.ok k → m ≡ k
same_manifest h = ground (arith, h)

module _ (sha : Sha256) (ssl : OpenSsl) {World : Type 0}
    (call : World → PeerEndpoint → Bytes → World × Reply) (can_alloc : ℕ → Bool) where
  accept_manifest_inv :
      (id : Bytes) (reply : Client.Result Bytes) (m : Manifest)
      → accept_manifest sha ssl call can_alloc id reply ≡ some m
      → (text : Bytes) × (sha256_hex sha text ≡ id) × (parse_manifest_text text ≡ Manifest.ok m)
  unfolding accept_manifest
  accept_manifest_inv id (Client.throw e) m h = absurd (ground (arith, h))
  accept_manifest_inv id (Client.ok text) m h =
      let found : Option Manifest = elim (parse_manifest_text text) [
        | Manifest.ok m ↦ some m
        | Manifest.throw _ ↦ none
      ] in
      elim (bytes_discrete (sha256_hex sha text) id) [
        | no ne ↦ absurd (
            ground
              (arith, sym (if_neg (bytes_discrete (sha256_hex sha text) id) ne found none) ∙ h))
        | yes e ↦ (
          text,
          e,
          some_of_inv (parse_manifest_text text) m
              (sym (if_pos (bytes_discrete (sha256_hex sha text) id) e found none) ∙ h),
        )
      ]

  -- What a peer sends as the manifest has the digest that was asked for.
  find_manifest_inv :
      (w : World) (ps : List PeerEndpoint) (id : Bytes) (m : Manifest)
      → (find_manifest sha ssl call can_alloc w ps id).1 ≡ some m
      → (text : Bytes) × (sha256_hex sha text ≡ id) × (parse_manifest_text text ≡ Manifest.ok m)
  unfolding find_manifest
  find_manifest_inv w [] id m h = absurd (ground (arith, h))
  find_manifest_inv w (p ∷ ps) id m h =
      let asked = Client.get_manifest call can_alloc w p id in
      elim (Option-cases (accept_manifest sha ssl call can_alloc id asked.1)) [
        | inl bad ↦ find_manifest_inv asked.0 ps id m (rw (bad, find_manifest) at h)
        | inr (k, good) ↦ accept_manifest_inv id asked.1 m (good ∙ rw (good, find_manifest) at h)
      ]

  resolve_manifest-remote :
      (w : World) (fs : FileSystem) (node : DhtNode) (cfg : ClientConfig) (ref : Bytes)
      (m : Manifest)
      → is_found (read_file fs ref) || fs.is_dir ref ≡ false
      → (resolve_manifest sha ssl call can_alloc w fs node cfg ref).1 ≡ ok m
      → (text : Bytes) × (sha256_hex sha text ≡ normalize_manifest_id ref)
        × (parse_manifest_text text ≡ Manifest.ok m)
  unfolding resolve_manifest
  resolve_manifest-remote w fs node cfg ref m away h =
      let id = normalize_manifest_id ref in
      elim (Result-cases
        (candidates_for sha ssl call can_alloc node cfg (codes "manifest:" ++ id))) [
          | inr (e, bad) ↦ absurd (ground (arith, rw (away, bad, resolve_manifest) at h))
          | inl (ps, good) ↦ find_manifest_inv w ps id m (
              ensure_inv (find_manifest sha ssl call can_alloc w ps id).1 m
                (rw (away, good, resolve_manifest) at h))
        ]

  resolve_manifest-local :
      (w : World) (fs : FileSystem) (node : DhtNode) (cfg : ClientConfig) (ref : Bytes)
      (m m' : Manifest)
      → read_manifest fs ref ≡ Manifest.ok m
      → (resolve_manifest sha ssl call can_alloc w fs node cfg ref).1 ≡ ok m'
      → m' ≡ m
  unfolding resolve_manifest read_manifest is_found
  resolve_manifest-local w fs node cfg ref m m' read h = elim (Option-cases (read_file fs ref)) [
    | inl bad ↦ absurd (ground (arith, read, bad))
    | inr (text, good) ↦ same_manifest (
        sym (ok_of_inv (parse_manifest_text text) m' (rw (good, resolve_manifest) at h))
        ∙ rw (good, read_manifest) at read)
  ]

  -- How a user names what was put: the local copy of the manifest, which is still there, or the
  -- address, which is no local path and whose digest no two texts share.
  abbrev pub Denotes : FileSystem → FileSystem → PutFileResult → Bytes → Type 0
  Denotes fs' now r ref =
      (ref ≡ r.local_manifest_path) × (read_file now ref ≡ read_file fs' ref)
      ⊎ (ref ≡ r.share_uri)
        × (is_found (read_file now ref) || now.is_dir ref ≡ false)
        × ((a b : Bytes)
            → sha256_hex sha a ≡ normalize_manifest_id ref
            → sha256_hex sha b ≡ normalize_manifest_id ref
            → a ≡ b)

  -- Whichever it is, the manifest is the one that was written.
  pub Denotes-manifest :
      (fs' now : FileSystem) (r : PutFileResult) (ref : Bytes) (v : World) (node : DhtNode)
      (cfg : ClientConfig) (fs : FileSystem) (m k : Manifest)
      → IsPrintable m
      → Manifest.write_manifest fs r.local_manifest_path m ≡ Manifest.ok fs'
      → r.share_uri ≡ codes "dss://file/" ++ sha256_hex sha (serialize_manifest m)
      → Denotes fs' now r ref
      → (resolve_manifest sha ssl call can_alloc v now node cfg ref).1 ≡ ok k
      → k ≡ m
  Denotes-manifest fs' now r ref v node cfg fs m k printable kept uri (inl (named, same)) h =
      let stored : read_manifest fs' ref ≡ Manifest.ok m =
        ap (read_manifest fs') named
        ∙ read_manifest-write_manifest fs fs' r.local_manifest_path m printable kept in
      resolve_manifest-local v now node cfg ref m k (read_manifest_same now fs' ref same ∙ stored) h
  Denotes-manifest fs' now r ref v node cfg fs m k printable kept uri (inr (named, away, once)) h =
      let (text, digest, read) = resolve_manifest-remote v now node cfg ref k away h in
      let hash : sha256_hex sha (serialize_manifest m) ≡ normalize_manifest_id ref =
        sym (ap normalize_manifest_id (named ∙ uri) ∙ normalize_manifest_id_uri _) in
      same_manifest (
        sym read
        ∙ ap parse_manifest_text (once text (serialize_manifest m) digest hash)
        ∙ parse_manifest_text-serialize_manifest m printable)
