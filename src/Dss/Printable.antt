-- ===== src/Dss/Printable.antt =====
-- The manifest that `putFile` writes can be read back.
use s2_decentralised_storage.Prelude.{
  ℕ, ◌<◌, suc, ◌≡◌, ◌≢◌, refl, sym, ap, Bool, Option, none, some, List, [], ◌∷◌, ◌++◌, map, Bytes,
  codes, length, arith, subst, All-mono, Bool-cases, Option-cases, inl, inr,
}
use s2_decentralised_storage.Cpp.Stream.{IsWord, IsGraph, is_space}
use s2_decentralised_storage.Cpp.Decimal.{u64_mod}
use s2_decentralised_storage.Crypto.Hex.{to_hex, IsHexChar, to_hex-All}
use s2_decentralised_storage.Crypto.Sha256.{
  Sha256, sha256_hex, sha256_hex-IsWord, IsGraph-of_IsHexChar,
}
use s2_decentralised_storage.Crypto.Hybrid as Hybrid
use s2_decentralised_storage.Crypto.Hybrid.{
  OpenSsl, FileEncryptionParams, EncryptedKey, encrypt_file_key_rsa, generate_file_key,
}
use s2_decentralised_storage.Dht.Id.{PeerEndpoint}
use s2_decentralised_storage.Manifest.{ManifestEntry}
use s2_decentralised_storage.Manifest.RoundTrip.{
  IsPrintable, AreWords, is_label, IsWord-of_is_label,
}
use s2_decentralised_storage.Chunk.{Chunk}
use s2_decentralised_storage.Peer.Client.{Reply}
use s2_decentralised_storage.Tracker.{is_empty}
use s2_decentralised_storage.Dss.{ClientConfig, Result, ok, key_failed}
use s2_decentralised_storage.Dss.RoundTrip.{cons_parts}
use s2_decentralised_storage.Dss.Puts.{>>=-eq-ok}
use s2_decentralised_storage.Dss.Transfer.{base_name, from_hybrid, make_key, manifest_of}

-- The entries are printed digests.
pub entries_lem :
    (sha : Sha256) (es : List ManifestEntry) (cs : List Chunk)
    → map (λ e. e.chunk_id) es ≡ map (λ c. sha256_hex sha c.bytes) cs
    → AreWords es × (length es ≡ length cs)
entries_lem sha [] [] h = (tt, refl)
entries_lem sha [] (c ∷ cs) h = absurd (ground (arith, h))
entries_lem sha (e ∷ es) [] h = absurd (ground (arith, h))
entries_lem sha (e ∷ es) (c ∷ cs) h =
    let (here, there) = cons_parts h in
    let (words, size) = entries_lem sha es cs there in
    ((subst IsWord (sym here) (sha256_hex-IsWord sha c.bytes), words), ap suc size)

to_hex-IsWord : (s : Bytes) → s ≢ [] → IsWord (to_hex s)
unfolding to_hex
to_hex-IsWord [] ne = absurd (ne refl)
to_hex-IsWord (b ∷ s) ne = record {
  nonempty = λ e. cc;
  graph = All-mono IsHexChar IsGraph (to_hex (b ∷ s)) IsGraph-of_IsHexChar (to_hex-All (b ∷ s));
}

ok-injective {ℓ} : {A : Type ℓ} {a b : A} → ◌≡◌ {A = Result A} (ok a) (ok b) → a ≡ b
ok-injective h = ground (arith, h)

from_hybrid_inv {ℓ} :
    {A : Type ℓ} (r : Hybrid.Result A) (a : A) → from_hybrid key_failed r ≡ ok a → r ≡ Hybrid.ok a
unfolding from_hybrid
from_hybrid_inv (Hybrid.ok b) a h = ground (arith, h)
from_hybrid_inv (Hybrid.throw e) a h = absurd (ground (arith, h))

module _ (sha : Sha256) (ssl : OpenSsl) {World : Type 0}
    (call : World → PeerEndpoint → Bytes → World × Reply) (can_alloc : ℕ → Bool) where
  -- The texts of a wrapped key.
  abbrev pub IsPrintableKey : Option (FileEncryptionParams × EncryptedKey) → Type 0
  IsPrintableKey none = Unit {0}
  IsPrintableKey (some (params, ek)) = IsWord ek.alg × IsWord (to_hex ek.blob)

  -- A key that is wrapped is a blob that RSA made.
  wrapped_lem :
      (params : FileEncryptionParams) (path : Bytes) (ek : EncryptedKey)
      → ((k t c : Bytes) → ssl.rsa_encrypt k t ≡ some c → c ≢ [])
      → encrypt_file_key_rsa ssl params path ≡ Hybrid.ok ek
      → IsPrintableKey (some (params, ek))
  unfolding encrypt_file_key_rsa Hybrid.ensure is_label is_space
  wrapped_lem params path ek rsa h = elim (Option-cases (ssl.read_public_key path)) [
    | inl bad ↦ absurd (ground (arith, h, bad))
    | inr (k, read) ↦ elim (Option-cases (ssl.rsa_encrypt k (params.key ++ params.iv))) [
      | inl bad ↦ absurd (ground (arith, h, read, bad))
      | inr (blob, sealed) ↦
          let same : record { alg = codes "RSA"; blob = blob } ≡ ek =
            ground (arith, h, read, sealed) in
          subst (λ q. IsWord q.alg × IsWord (to_hex q.blob)) same
            (
              IsWord-of_is_label b'R' (codes "SA") refl,
              to_hex-IsWord blob (rsa k (params.key ++ params.iv) blob sealed),
            )
    ]
  ]

  pub make_key-IsPrintableKey :
      (cfg : ClientConfig) (key : Option (FileEncryptionParams × EncryptedKey))
      → ((k t c : Bytes) → ssl.rsa_encrypt k t ≡ some c → c ≢ [])
      → make_key sha ssl call can_alloc cfg ≡ ok key
      → IsPrintableKey key
  unfolding make_key
  make_key-IsPrintableKey cfg key rsa h = elim (Bool-cases (is_empty cfg.rsa_public_key_path)) [
    | inl clear ↦ let same : none ≡ key = ground (arith, h, clear) in subst IsPrintableKey same tt
    | inr secret ↦
        let (params, _, h1) =
          >>=-eq-ok (from_hybrid key_failed (generate_file_key ssl)) _
            (rw (secret, make_key) at h) in
        let (ek, wrapped, h2) =
          >>=-eq-ok
            (from_hybrid key_failed (encrypt_file_key_rsa ssl params cfg.rsa_public_key_path)) _
            h1 in
        subst IsPrintableKey (ok-injective h2)
          (wrapped_lem params cfg.rsa_public_key_path ek rsa (from_hybrid_inv _ ek wrapped))
  ]

  pub manifest_of-IsPrintable :
      (cfg : ClientConfig) (path : Bytes) (size : ℕ)
      (key : Option (FileEncryptionParams × EncryptedKey)) (es : List ManifestEntry)
      → IsWord (base_name [] path)
      → size < u64_mod
      → cfg.chunk_size < u64_mod
      → length es < u64_mod
      → AreWords es
      → IsPrintableKey key
      → IsPrintable (manifest_of sha ssl call can_alloc cfg path size key es)
  unfolding manifest_of is_label is_space
  manifest_of-IsPrintable cfg path size none es name fits chunk count words k = record {
    name = name;
    size = fits;
    chunk = chunk;
    count = count;
    entries = words;
    plain = λ e. (refl, refl, refl);
    secret = λ e. absurd (ground (arith, e));
  }
  manifest_of-IsPrintable cfg path size (some (params, ek)) es name fits chunk count words (a, b) =
      record {
        name = name;
        size = fits;
        chunk = chunk;
        count = count;
        entries = words;
        plain = λ e. absurd (ground (arith, e));
        secret = λ e. (IsWord-of_is_label b'A' (codes "ES-256-GCM") refl, a, b);
      }
