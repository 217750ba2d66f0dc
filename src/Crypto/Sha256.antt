-- ===== src/Crypto/Sha256.antt =====
-- `sha256_hex` of src/core/crypto/shq256.cpp. The digest itself is OpenSSL's: a parameter.
use s2_decentralised_storage.Prelude.{
  ℕ, ◌/◌, ◌%◌, ◌≡◌, refl, ap, some, [], ◌∷◌, ◌++◌, Bytes, length, All, All-mono, ltb, if◌then◌else◌,
  arith, inl, inr, Bool-cases,
}
use s2_decentralised_storage.Cpp.Stream.{is_space, IsGraph, IsWord}
use s2_decentralised_storage.Crypto.Hex.{
  IsByte, IsHexChar, char_at, k_hex, high_char, low_char, to_hex, from_hex, from_hex-to_hex,
  length-to_hex, to_hex-All,
}

-- SHA-256 as OpenSSL computes it: 32 bytes for every input.
pub record Sha256 : Type 0 where
  pub digest : Bytes → Bytes
  pub length-digest : (data_bytes : Bytes) → length (digest data_bytes) ≡ 32
  pub digest-All : (data_bytes : Bytes) → All IsByte (digest data_bytes)

-- `out << std::hex << n` for a byte
unfoldable pub hex_out : ℕ → Bytes
unfolding char_at
hex_out n =
    if ltb n 16 then char_at k_hex n ∷ [] else char_at k_hex (n / 16) ∷ char_at k_hex (n % 16) ∷ []

-- `std::setw(2) << std::setfill('0')`
unfoldable pub pad_two : Bytes → Bytes
pad_two s = if ltb (length s) 2 then b'0' ∷ s else s

unfoldable pub print_hash : Bytes → Bytes
print_hash [] = []
print_hash (b ∷ hash) = pad_two (hex_out b) ++ print_hash hash

padded_lem : (b : ℕ) → IsByte b → pad_two (hex_out b) ≡ high_char b ∷ low_char b ∷ []
unfolding pad_two hex_out high_char low_char char_at
padded_lem b h = elim (Bool-cases (ltb b 16)) [
  | inl one ↦
      let none_above : b / 16 % 16 ≡ 0 = ground arith in
      let all_below : b % 16 ≡ b = ground arith in rw (none_above, all_below, one)
  | inr two ↦ let above : b / 16 % 16 ≡ b / 16 = ground arith in rw (above, two)
]

-- The stream's print of a digest is its hexadecimal text.
pub print_hash-to_hex : (hash : Bytes) → All IsByte hash → print_hash hash ≡ to_hex hash
unfolding print_hash to_hex
print_hash-to_hex [] h = refl
print_hash-to_hex (b ∷ hash) (p, h) = rw (padded_lem b p, print_hash-to_hex hash h)

pub IsGraph-of_IsHexChar : (c : ℕ) → IsHexChar c → IsGraph c
unfolding is_space
IsGraph-of_IsHexChar c h = ground arith

module _ (sha : Sha256) where
  open sha use {digest, length-digest, digest-All}

  unfoldable pub sha256_hex : Bytes → Bytes
  sha256_hex data_bytes = print_hash (digest data_bytes)

  pub sha256_hex-to_hex : (data_bytes : Bytes) → sha256_hex data_bytes ≡ to_hex (digest data_bytes)
  unfolding sha256_hex
  sha256_hex-to_hex data_bytes = print_hash-to_hex (digest data_bytes) (digest-All data_bytes)

  -- For every text the printed digest has 64 characters, all of them lower-case hexadecimal digits, and `from_hex`
  -- gives the digest back.
  pub sha256_hex_lem :
      (data_bytes : Bytes)
      → (length (sha256_hex data_bytes) ≡ 64)
        × All IsHexChar (sha256_hex data_bytes)
        × (from_hex (sha256_hex data_bytes) ≡ some (digest data_bytes))
  sha256_hex_lem data_bytes = rw (sha256_hex-to_hex data_bytes) (
    omega (arith, length-to_hex (digest data_bytes), length-digest data_bytes),
    to_hex-All (digest data_bytes),
    from_hex-to_hex (digest data_bytes) (digest-All data_bytes),
  )

  -- So it is a word, which a protocol line or a manifest can hold.
  pub sha256_hex-IsWord : (data_bytes : Bytes) → IsWord (sha256_hex data_bytes)
  sha256_hex-IsWord data_bytes =
      let (size, chars, _) = sha256_hex_lem data_bytes in
      record {
        nonempty = λ e. absurd (omega (arith, size, ap length e));
        graph = All-mono IsHexChar IsGraph (sha256_hex data_bytes) IsGraph-of_IsHexChar chars;
      }
