-- ===== src/Tests/Keys.antt =====
-- Hashes and keys, with small functions in the place of OpenSSL.
use s2_decentralised_storage.Prelude.{
  none, ℕ, zero, suc, ◌+◌, ◌≡◌, refl, Option, some, [], ◌∷◌, ◌++◌, Bytes, codes, length, All,
  replicate, arith, ◌%◌, ap, sym,
}
use s2_decentralised_storage.Crypto.Hex as Hex
use s2_decentralised_storage.Crypto.Hex.{to_hex, from_hex, IsHexChar, from_hex-to_hex}
use s2_decentralised_storage.Crypto.Sha256.{Sha256}
use s2_decentralised_storage.Crypto.Hybrid.{
  OpenSsl, FileEncryptionParams, EncryptedKey, ok, seal_prefix, is_negative, to_int_bits,
  aes_gcm_encrypt, aes_gcm_decrypt, encrypt_file_key_rsa, decrypt_file_key_rsa, derive_chunk_iv,
  ensure,
}
use s2_decentralised_storage.Crypto.Hybrid.Nonce.{derive_chunk_iv-injective}
use s2_decentralised_storage.Crypto.Hybrid.RoundTrip.{
  IsAead, IsKeyPair, aes_gcm_decrypt-aes_gcm_encrypt, decrypt_file_key_rsa-encrypt_file_key_rsa,
}

-- The first byte, and zeros: a stand-in for SHA-256.
abbrev first_byte : Bytes → ℕ
first_byte [] = 0
first_byte (c ∷ s) = c

unfoldable pub toy_digest : Bytes → Bytes
toy_digest s = first_byte s % 256 ∷ replicate 31 0

pub toy_digest_size : (s : Bytes) → length (toy_digest s) ≡ 32
unfolding toy_digest
toy_digest_size s = refl

pub zeros-All : (n : ℕ) → All Hex.IsByte (replicate n 0)
zeros-All zero = tt
zeros-All (suc n) = (omega arith, zeros-All n)

pub toy_digest-All : (s : Bytes) → All Hex.IsByte (toy_digest s)
unfolding toy_digest
toy_digest-All s = (omega arith, zeros-All 31)

abbrev pub toy_sha : Sha256
toy_sha = record {
  digest = toy_digest;
  length-digest = toy_digest_size;
  digest-All = toy_digest-All;
}

abbrev nonce : Bytes
nonce = replicate 12 7

abbrev chunk_index : ℕ
chunk_index = 5

derive_chunk_iv-injective_example : chunk_index ≡ chunk_index
derive_chunk_iv-injective_example =
    derive_chunk_iv-injective nonce chunk_index chunk_index refl (omega arith) (omega arith) refl

-- Ciphers that change nothing, with a tag of zeros.
abbrev zero_tag : Bytes
zero_tag = replicate 16 0

abbrev pub toy_ssl : OpenSsl
toy_ssl = record {
  seal = λ key iv p. some (p, zero_tag);
  seal_negative = λ key iv p. none;
  unseal = λ key iv c t. some c;
  rand_bytes = λ n. some (replicate n 1);
  read_public_key = λ path. some path;
  read_private_key = λ path. some path;
  rsa_encrypt = λ key m. some m;
  rsa_decrypt = λ key c. some c;
}

some_pair :
    (a c : Bytes) (b d : Bytes)
    → ◌≡◌ {A = Option (Bytes × Bytes)} (some (a, b)) (some (c, d))
    → (a ≡ c) × (b ≡ d)
some_pair a c b d e = (cc, cc)

toy_ssl-IsAead : IsAead toy_ssl
toy_ssl-IsAead = record {
  unseal-seal = λ key iv p c t lk h. ap some (sym (some_pair p c zero_tag t h).0);
  length-seal = λ key iv p c t lk h.
      let (e, f) = some_pair p c zero_tag t h in
      (omega (arith, ap length e), omega (arith, ap length f));
}

abbrev key : Bytes
key = replicate 32 1

aes_gcm_decrypt-aes_gcm_encrypt_example :
    (aes_gcm_decrypt toy_ssl (codes "abc" ++ zero_tag) key nonce 5 ≡ ok (codes "abc"))
    × (length (codes "abc" ++ zero_tag) ≡ 3 + 16)
aes_gcm_decrypt-aes_gcm_encrypt_example =
    aes_gcm_decrypt-aes_gcm_encrypt toy_ssl toy_ssl-IsAead (codes "abc") key nonce 5
      (codes "abc" ++ zero_tag) refl (omega arith)
      (unfold aes_gcm_encrypt seal_prefix is_negative to_int_bits derive_chunk_iv ensure in refl)

toy_pair : IsKeyPair toy_ssl (codes "pub.pem") (codes "key.pem")
toy_pair = record { private_key = codes "key.pem"; reads = refl; decrypts = λ pkey m c r h. cc }

abbrev params : FileEncryptionParams
params = record { key = replicate 32 1; iv = nonce }

abbrev wrapped : EncryptedKey
wrapped = record { alg = codes "RSA"; blob = params.key ++ params.iv }

decrypt_file_key_rsa-encrypt_file_key_rsa_example :
    decrypt_file_key_rsa toy_ssl wrapped (codes "key.pem") ≡ ok params
decrypt_file_key_rsa-encrypt_file_key_rsa_example =
    decrypt_file_key_rsa-encrypt_file_key_rsa toy_ssl (codes "pub.pem") (codes "key.pem") toy_pair
      params wrapped refl refl (unfold encrypt_file_key_rsa ensure in refl)
