-- ===== src/Crypto/Hybrid/Nonce.antt =====
-- The nonces of the chunks of a file.
use s2_decentralised_storage.Prelude.{
  ℕ, ◌+◌, ◌*◌, ◌%◌, ◌^◌, ◌<◌, ◌≡◌, ap, [], ◌∷◌, Bytes, length, arith,
}
use s2_decentralised_storage.Crypto.Hybrid.{Result, ok, throw, derive_chunk_iv}

-- The last four bytes of a text of twelve.
abbrev counter_of : Bytes → ℕ
counter_of (a ∷ b ∷ c ∷ d ∷ e ∷ f ∷ g ∷ h ∷ w ∷ x ∷ y ∷ z ∷ []) =
    w * 2 ^ 24 + x * 2 ^ 16 + y * 2 ^ 8 + z
counter_of _ = 0

abbrev iv_counter : Result Bytes → ℕ
iv_counter (ok iv) = counter_of iv
iv_counter (throw e) = 0

-- Big-endian bytes give the counter back.
iv_counter-derive_chunk_iv :
    (base : Bytes) (idx : ℕ)
    → length base ≡ 12
    → iv_counter (derive_chunk_iv base idx) ≡ idx % 2 ^ 32
unfolding derive_chunk_iv
iv_counter-derive_chunk_iv (a ∷ b ∷ c ∷ d ∷ e ∷ f ∷ g ∷ h ∷ w ∷ x ∷ y ∷ z ∷ []) idx l = omega arith
iv_counter-derive_chunk_iv _ idx l = absurd (omega arith)

-- For a base nonce of 12 bytes and chunk indices below 2^32, equal chunk nonces have equal indices.
pub derive_chunk_iv-injective :
    (base : Bytes) (i j : ℕ)
    → length base ≡ 12
    → i < 2 ^ 32
    → j < 2 ^ 32
    → derive_chunk_iv base i ≡ derive_chunk_iv base j
    → i ≡ j
derive_chunk_iv-injective base i j l hi hj e = omega (
  arith,
  iv_counter-derive_chunk_iv base i l,
  iv_counter-derive_chunk_iv base j l,
  ap iv_counter e,
)

-- A chunk index 2^32 further on has the same nonce again, or throws as before.
pub derive_chunk_iv_wrap :
    (base : Bytes) (i : ℕ) → derive_chunk_iv base (i + 2 ^ 32) ≡ derive_chunk_iv base i
unfolding derive_chunk_iv
derive_chunk_iv_wrap base i = let e : (i + 2 ^ 32) % 2 ^ 32 ≡ i % 2 ^ 32 = omega arith in rw e
