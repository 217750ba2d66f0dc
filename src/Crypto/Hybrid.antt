-- ===== src/Crypto/Hybrid.antt =====
-- src/core/crypto/hybrid.h and .cpp: AES-256-GCM for chunks, with a nonce for each chunk, and the file
-- key wrapped by RSA. What OpenSSL computes is a parameter; none is a call that failed.
pub mod Nonce
pub mod RoundTrip
use s2_decentralised_storage.Prelude.{
  not, ℕ, zero, suc, ◌+◌, ◌-◌, ◌*◌, ◌/◌, ◌%◌, ◌^◌, ◌≤◌, ◌<◌, ◌≡◌, ◌≢◌, refl, ap, sym, ◌∙◌, Bool,
  true, false, Option, none, some, List, [], ◌∷◌, ◌++◌, Bytes, codes, length, length-append, take,
  drop, take-append, drop-append, set, ltb, ◌==◌, ==_iff, if◌then◌else◌, arith, inl, inr,
  Bool-cases,
}

pub data Error : Type 0 where
  base_iv_size ciphertext_too_short length_error tag_mismatch openssl_error rand_failed : Error
  no_public_key no_private_key key_blob_too_short : Error

-- The value that a function returns, or what it throws.
pub data Result {ℓ} (A : Type ℓ) : Type ℓ where
  ok : A → Result A
  throw : Error → Result A

infixl 5 ◌>>=◌
abbrev pub ◌>>=◌ {ℓ κ} : {A : Type ℓ} {B : Type κ} → Result A → (A → Result B) → Result B
ok a >>= f = f a
throw e >>= f = throw e

-- `ensure_ok`, and the tests for a null pointer
unfoldable pub ensure {ℓ} : {A : Type ℓ} → Error → Option A → Result A
ensure e none = throw e
ensure e (some a) = ok a

pub record FileEncryptionParams : Type 0 where
  pub key : Bytes
  pub iv : Bytes

pub record EncryptedKey : Type 0 where
  pub alg : Bytes
  pub blob : Bytes

-- The counter of the chunk replaces the last four bytes, big-endian.
unfoldable pub derive_chunk_iv : Bytes → ℕ → Result Bytes
derive_chunk_iv base_iv idx =
    let ctr = idx % 2 ^ 32 in
    if length base_iv == 12
    then ok (
        set
          (set (set (set base_iv 8 (ctr / 2 ^ 24 % 256)) 9 (ctr / 2 ^ 16 % 256)) 10
            (ctr / 2 ^ 8 % 256))
          11 (ctr % 256))
    else throw base_iv_size

-- The end of `decrypt_file_key_rsa`: 32 bytes of key, 12 of nonce.
unfoldable pub split_blob : Bytes → Result FileEncryptionParams
split_blob out =
    if ltb (length out) (32 + 12)
    then throw key_blob_too_short
    else ok (record { key = take 32 out; iv = take 12 (drop 32 out) })

-- `static_cast<int>` of a size is this modulo 2^32, and is negative where it has bit 31.
unfoldable pub to_int_bits : ℕ → ℕ
to_int_bits size = size % 2 ^ 32

unfoldable pub is_negative : ℕ → Bool
is_negative bits = not (ltb bits (2 ^ 31))

-- What the program asks of OpenSSL. A key for AES has 32 bytes: OpenSSL reads so many, and the code
-- does not look at how many there are.
pub record OpenSsl : Type 0 where
  -- AES-256-GCM with key, nonce and plaintext: the ciphertext and the tag of 16 bytes.
  pub seal : Bytes → Bytes → Bytes → Option (Bytes × Bytes)
  -- What it makes of a plaintext whose length is given as a negative number.
  pub seal_negative : Bytes → Bytes → Bytes → Option (Bytes × Bytes)
  -- The plaintext, or none if the tag does not fit.
  pub unseal : Bytes → Bytes → Bytes → Bytes → Option Bytes
  pub rand_bytes : ℕ → Option Bytes
  -- The key in a PEM file.
  pub read_public_key : Bytes → Option Bytes
  pub read_private_key : Bytes → Option Bytes
  -- RSA with OAEP padding.
  pub rsa_encrypt : Bytes → Bytes → Option Bytes
  pub rsa_decrypt : Bytes → Bytes → Option Bytes

module _ (ssl : OpenSsl) where
  open ssl use {
    seal, seal_negative, unseal, rand_bytes, read_public_key, read_private_key, rsa_encrypt,
    rsa_decrypt,
  }

  unfoldable pub generate_file_key : Result FileEncryptionParams
  generate_file_key = do
    key ← ensure rand_failed (rand_bytes 32)
    iv ← ensure rand_failed (rand_bytes 12)
    ok (record { key = key; iv = iv })

  -- OpenSSL takes as many bytes of the plaintext as the `int` says.
  unfoldable pub seal_prefix : Bytes → Bytes → Bytes → ℕ → Option (Bytes × Bytes)
  unfolding is_negative
  seal_prefix key iv plaintext bits =
      if is_negative bits then seal_negative key iv plaintext else seal key iv (take bits plaintext)

  -- The layout is ciphertext, then tag.
  unfoldable pub aes_gcm_encrypt : Bytes → Bytes → Bytes → ℕ → Result Bytes
  unfolding seal_prefix to_int_bits
  aes_gcm_encrypt plaintext key base_iv chunk_index = do
    iv ← derive_chunk_iv base_iv chunk_index
    (ciphertext, tag) ←
        ensure openssl_error (seal_prefix key iv plaintext (to_int_bits (length plaintext)))
    ok (ciphertext ++ tag)

  -- A negative length becomes a huge one in `out.resize`, which throws.
  unfoldable pub unseal_prefix : Bytes → Bytes → Bytes → ℕ → ℕ → Result Bytes
  unfolding is_negative
  unseal_prefix key iv ciphertext tag_pos bits =
      if is_negative bits
      then throw length_error
      else ensure tag_mismatch (unseal key iv (take bits ciphertext) (drop tag_pos ciphertext))

  unfoldable pub aes_gcm_decrypt : Bytes → Bytes → Bytes → ℕ → Result Bytes
  unfolding unseal_prefix to_int_bits
  aes_gcm_decrypt ciphertext key base_iv chunk_index =
      let tag_pos = length ciphertext - 16 in
      if ltb (length ciphertext) 16 then throw ciphertext_too_short else do
        iv ← derive_chunk_iv base_iv chunk_index
        unseal_prefix key iv ciphertext tag_pos (to_int_bits tag_pos)

  unfoldable pub encrypt_file_key_rsa : FileEncryptionParams → Bytes → Result EncryptedKey
  encrypt_file_key_rsa params public_key_pem_path = do
    pkey ← ensure no_public_key (read_public_key public_key_pem_path)
    blob ← ensure openssl_error (rsa_encrypt pkey (params.key ++ params.iv))
    ok (record { alg = codes "RSA"; blob = blob })

  unfoldable pub decrypt_file_key_rsa : EncryptedKey → Bytes → Result FileEncryptionParams
  decrypt_file_key_rsa ek private_key_pem_path = do
    pkey ← ensure no_private_key (read_private_key private_key_pem_path)
    out ← ensure openssl_error (rsa_decrypt pkey ek.blob)
    split_blob out
