-- ===== src/Crypto/Hex.antt =====
-- `to_hex` and `from_hex` of src/core/crypto/hybrid.cpp.
use s2_decentralised_storage.Prelude.{
  ℕ, zero, suc, ◌*◌, ◌/◌, ◌%◌, ◌<◌, ◌≡◌, refl, Bool, true, ◌&&◌, Option, none, some, [], ◌∷◌, Bytes,
  codes, length, All, ◌==◌, ==_iff, if◌then◌else◌, arith, ◌>>=◌, Option-cases, inl, inr, ◌⊎◌, ◌≤◌,
  leb, ◌||◌,
}
use s2_decentralised_storage.Cpp.Int.{ℤ}
use s2_decentralised_storage.Cpp.Hexadecimal.{stoi_hex, to_u8, all_below, all_below_sound}

-- A value of `unsigned char`.
abbrev pub IsByte : ℕ → Type 0
IsByte b = b < 256

-- `kHex[d]`
unfoldable pub char_at : Bytes → ℕ → ℕ
char_at [] i = 0
char_at (c ∷ s) zero = c
char_at (c ∷ s) (suc i) = char_at s i

abbrev pub k_hex : Bytes
k_hex = codes "0123456789abcdef"

unfoldable pub high_char : ℕ → ℕ
unfolding char_at
high_char b = char_at k_hex (b / 16 % 16)

unfoldable pub low_char : ℕ → ℕ
unfolding char_at
low_char b = char_at k_hex (b % 16)

unfoldable pub to_hex : Bytes → Bytes
to_hex [] = []
to_hex (b ∷ data_bytes) = high_char b ∷ low_char b ∷ to_hex data_bytes

-- The loop over pairs of characters.
unfoldable pub from_pairs : Bytes → Option Bytes
from_pairs (a ∷ b ∷ hex) = do
  v ← stoi_hex (a ∷ b ∷ [])
  rest ← from_pairs hex
  some (to_u8 v ∷ rest)
from_pairs _ = some []

-- A text of odd length gives no bytes; none is the exception of `std::stoi`.
unfoldable pub from_hex : Bytes → Option Bytes
unfolding from_pairs
from_hex hex = if length hex % 2 == 0 then from_pairs hex else some []

pair_value : ℕ → ℕ
pair_value b = elim (stoi_hex (high_char b ∷ low_char b ∷ [])) [ none ↦ 256 | some v ↦ to_u8 v ]

pair_table : all_below 256 (λ b. pair_value b == b) ≡ true
unfolding all_below pair_value stoi_hex high_char low_char to_u8
pair_table = refl

from_pair : (b : ℕ) → IsByte b → pair_value b ≡ b
from_pair b h = (==_iff _ b).0 (all_below_sound 256 (λ c. pair_value c == c) b pair_table h)

pub length-to_hex : (data_bytes : Bytes) → length (to_hex data_bytes) ≡ 2 * length data_bytes
unfolding to_hex
length-to_hex [] = refl
length-to_hex (b ∷ data_bytes) = omega (arith, length-to_hex data_bytes)

pair_lem :
    (b : ℕ)
    → IsByte b
    → (v : ℤ) × (stoi_hex (high_char b ∷ low_char b ∷ []) ≡ some v) × (to_u8 v ≡ b)
unfolding pair_value
pair_lem b h = elim (Option-cases (stoi_hex (high_char b ∷ low_char b ∷ []))) [
  | inl e ↦ absurd (omega (arith, rw (e, pair_value) at (from_pair b h)))
  | inr (v, e) ↦ (v, e, rw (e, pair_value) at (from_pair b h))
]

from_pairs-to_hex :
    (data_bytes : Bytes) → All IsByte data_bytes → from_pairs (to_hex data_bytes) ≡ some data_bytes
unfolding from_pairs to_hex
from_pairs-to_hex [] h = refl
from_pairs-to_hex (b ∷ data_bytes) (p, h) =
    let (v, e, byte) = pair_lem b p in rw (e, from_pairs-to_hex data_bytes h, byte)

-- A list of numbers below 256 is read back from its hexadecimal print.
pub from_hex-to_hex :
    (data_bytes : Bytes) → All IsByte data_bytes → from_hex (to_hex data_bytes) ≡ some data_bytes
unfolding from_hex
from_hex-to_hex data_bytes h =
    let even : (length (to_hex data_bytes) % 2 == 0) ≡ true =
      (==_iff _ 0).1 (omega (arith, length-to_hex data_bytes)) in
    rw even (from_pairs-to_hex data_bytes h)

-- A character of the print: a digit or a letter from `a` to `f`.
abbrev pub IsHexChar : ℕ → Type 0
IsHexChar c = ((b'0' ≤ c) × (c ≤ b'9')) ⊎ ((b'a' ≤ c) × (c ≤ b'f'))

is_hex_char : ℕ → Bool
is_hex_char c = leb b'0' c && leb c b'9' || leb b'a' c && leb c b'f'

is_hex_char_sound : (c : ℕ) → is_hex_char c ≡ true → IsHexChar c
unfolding is_hex_char
is_hex_char_sound c h = ground arith

nibble_table : all_below 16 (λ d. is_hex_char (char_at k_hex d)) ≡ true
unfolding all_below is_hex_char char_at
nibble_table = refl

char_at-IsHexChar : (d : ℕ) → d < 16 → IsHexChar (char_at k_hex d)
char_at-IsHexChar d h =
    is_hex_char_sound _ (all_below_sound 16 (λ e. is_hex_char (char_at k_hex e)) d nibble_table h)

-- The print is in lower case.
pub to_hex-All : (data_bytes : Bytes) → All IsHexChar (to_hex data_bytes)
unfolding to_hex high_char low_char
to_hex-All [] = tt
to_hex-All (b ∷ data_bytes) = (
  char_at-IsHexChar (b / 16 % 16) (omega arith),
  (char_at-IsHexChar (b % 16) (omega arith), to_hex-All data_bytes),
)
