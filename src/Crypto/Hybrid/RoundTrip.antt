-- ===== src/Crypto/Hybrid/RoundTrip.antt =====
-- What was encrypted is decrypted: chunks, and the file key.
use s2_decentralised_storage.Prelude.{
  ℕ, ◌%◌, ◌^◌, ◌<◌, ap, ◌∙◌, true, take, length-take, ◌+◌, ◌-◌, ◌≡◌, refl, false, some, ◌++◌, Bytes,
  length, length-append, take-append, drop-append, take-append_of, drop-append_of,
  take_of_length-le, ltb, arith, inl, inr, Option-cases, ◌⊎◌,
}
use s2_decentralised_storage.Crypto.Hybrid.{
  Error, Result, ok, throw, ensure, FileEncryptionParams, EncryptedKey, OpenSsl, derive_chunk_iv,
  seal_prefix, unseal_prefix, is_negative, to_int_bits, aes_gcm_encrypt, aes_gcm_decrypt,
  encrypt_file_key_rsa, split_blob, decrypt_file_key_rsa,
}

-- AES-256-GCM, under a key of 32 bytes: a sealed text is opened under the same key and nonce, has
-- the length of the plaintext, and its tag has 16 bytes.
pub record IsAead (ssl : OpenSsl) : Type 0 where
  pub unseal-seal :
      (key iv p c t : Bytes)
      → length key ≡ 32
      → ssl.seal key iv p ≡ some (c, t)
      → ssl.unseal key iv c t ≡ some p
  pub length-seal :
      (key iv p c t : Bytes)
      → length key ≡ 32
      → ssl.seal key iv p ≡ some (c, t)
      → (length c ≡ length p) × (length t ≡ 16)

-- The files hold the two halves of an RSA key.
pub record IsKeyPair (ssl : OpenSsl) (public_path private_path : Bytes) : Type 0 where
  pub private_key : Bytes
  pub reads : ssl.read_private_key private_path ≡ some private_key
  pub decrypts :
      (pkey m c : Bytes)
      → ssl.read_public_key public_path ≡ some pkey
      → ssl.rsa_encrypt pkey m ≡ some c
      → ssl.rsa_decrypt private_key c ≡ some m

Result-cases {ℓ} :
    {A : Type ℓ} (r : Result A) → ((a : A) × (r ≡ ok a)) ⊎ ((e : Error) × (r ≡ throw e))
Result-cases (ok a) = inl (a, refl)
Result-cases (throw e) = inr (e, refl)

module _ (ssl : OpenSsl) where
  -- Steps of an encryption that returned normally, of a length that is not negative as an `int`.
  aes_gcm_encrypt_inv :
      (p key base : Bytes) (idx : ℕ) (out : Bytes)
      → length p % 2 ^ 32 < 2 ^ 31
      → aes_gcm_encrypt ssl p key base idx ≡ ok out
      → (iv c t : Bytes) × (derive_chunk_iv base idx ≡ ok iv)
        × (ssl.seal key iv (take (length p % 2 ^ 32) p) ≡ some (c, t))
        × (out ≡ c ++ t)
  unfolding aes_gcm_encrypt ensure seal_prefix is_negative to_int_bits
  aes_gcm_encrypt_inv p key base idx out small h = elim (Result-cases (derive_chunk_iv base idx)) [
    | inr (e, thrown) ↦ absurd (ground (arith, h, thrown))
    | inl (iv, derived) ↦ elim (Option-cases (ssl.seal key iv (take (length p % 2 ^ 32) p))) [
      | inl failed ↦ absurd (ground (arith, h, derived, failed, small))
      | inr ((c, t), sealed) ↦
          (iv, c, t, derived, sealed, ground (arith, h, derived, sealed, small))
    ]
  ]

  -- Under an authenticated cipher as AES-GCM is documented, with a key of 32 bytes, of a chunk
  -- whose length is below 2^31 modulo 2^32, and which is encrypted without an exception: only as
  -- many of its first bytes as that are encrypted, which is all of a chunk below 2 GiB, with 16
  -- bytes more; they decrypt under the same key, base nonce and index to what they were.
  pub aes_gcm_decrypt-aes_gcm_encrypt :
      IsAead ssl
      → (p key base : Bytes) (idx : ℕ) (out : Bytes) → length key ≡ 32
      → length p % 2 ^ 32 < 2 ^ 31
      → aes_gcm_encrypt ssl p key base idx ≡ ok out
      → (aes_gcm_decrypt ssl out key base idx ≡ ok (take (length p % 2 ^ 32) p))
        × (length out ≡ length p % 2 ^ 32 + 16)
  unfolding aes_gcm_decrypt ensure unseal_prefix is_negative to_int_bits
  aes_gcm_decrypt-aes_gcm_encrypt aead p key base idx out lk small h =
      let n = length p % 2 ^ 32 in
      let (iv, c, t, derived, sealed, e) = aes_gcm_encrypt_inv p key base idx out small h in
      let (lc, lt) = aead.length-seal key iv (take n p) c t lk sealed in
      let size : length c ≡ n = omega (arith, lc, length-take n p) in
      let pos : length (c ++ t) - 16 ≡ length c = omega (arith, length-append c t, lt) in
      let long : ltb (length (c ++ t)) 16 ≡ false = ground (arith, length-append c t, lt) in
      let same : length c % 2 ^ 32 ≡ length c = omega (arith, size, small) in
      let positive : ltb (length c) (2 ^ 31) ≡ true = ground (arith, size, small) in
      (
        rw (
          e,
          long,
          derived,
          pos,
          same,
          positive,
          take-append,
          drop-append,
          aead.unseal-seal key iv (take n p) c t lk sealed,
        ),
        rw e (omega (arith, length-append c t, lt, size)),
      )

  -- A chunk below 2 GiB is decrypted whole.
  aes_gcm_decrypt-whole :
      IsAead ssl
      → (p key base : Bytes) (idx : ℕ) (out : Bytes) → length key ≡ 32
      → length p < 2 ^ 31
      → aes_gcm_encrypt ssl p key base idx ≡ ok out
      → aes_gcm_decrypt ssl out key base idx ≡ ok p
  aes_gcm_decrypt-whole aead p key base idx out lk small h =
      (aes_gcm_decrypt-aes_gcm_encrypt aead p key base idx out lk (omega (arith, small)) h).0
      ∙ ap ok (take_of_length-le (length p % 2 ^ 32) p (omega (arith, small)))

  split_blob-append :
      (params : FileEncryptionParams)
      → length params.key ≡ 32
      → length params.iv ≡ 12
      → split_blob (params.key ++ params.iv) ≡ ok params
  unfolding split_blob
  split_blob-append params lk li =
      let long : ltb (length (params.key ++ params.iv)) 44 ≡ false =
        ground (arith, length-append params.key params.iv) in
      rw (
        long,
        take-append_of params.key params.iv lk,
        drop-append_of params.key params.iv lk,
        take_of_length-le 12 params.iv (omega arith),
      )

  -- A file key of 32 bytes with a nonce of 12, wrapped without an exception with a public key, is
  -- unwrapped with the private key of the pair.
  pub decrypt_file_key_rsa-encrypt_file_key_rsa :
      (public_path private_path : Bytes)
      → IsKeyPair ssl public_path private_path
      → (params : FileEncryptionParams) (ek : EncryptedKey) → length params.key ≡ 32
      → length params.iv ≡ 12
      → encrypt_file_key_rsa ssl params public_path ≡ ok ek
      → decrypt_file_key_rsa ssl ek private_path ≡ ok params
  unfolding encrypt_file_key_rsa decrypt_file_key_rsa ensure
  decrypt_file_key_rsa-encrypt_file_key_rsa public_path private_path pair params ek lk li h =
      elim (Option-cases (ssl.read_public_key public_path)) [
        | inl none_read ↦ absurd (ground arith)
        | inr (pkey, read) ↦ elim (Option-cases (ssl.rsa_encrypt pkey (params.key ++ params.iv))) [
          | inl failed ↦ absurd (ground arith)
          | inr (c, wrapped) ↦
              let blob : ek.blob ≡ c = ground arith in
              rw (
                pair.reads,
                blob,
                pair.decrypts pkey (params.key ++ params.iv) c read wrapped,
                split_blob-append params lk li,
              )
        ]
      ]
