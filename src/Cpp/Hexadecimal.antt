-- ===== src/Cpp/Hexadecimal.antt =====
-- `std::stoi(text, nullptr, 16)` on the two characters that the program gives it, the cast to
-- `unsigned char`, and a check of all bytes by evaluation.
use s2_decentralised_storage.Prelude.{
  ℕ, zero, suc, ◌+◌, ◌-◌, ◌*◌, ◌%◌, ◌<◌, ◌≡◌, Bool, true, ◌&&◌, Option, none, some, [], ◌∷◌, Bytes,
  leb, if◌then◌else◌, arith, ◌>>=◌,
}
use s2_decentralised_storage.Cpp.Stream.{skip_ws}
use s2_decentralised_storage.Cpp.Decimal.{read_sign}
use s2_decentralised_storage.Cpp.Int.{ℤ, pos, negsuc, signed}

unfoldable pub hex_digit : ℕ → Option ℕ
hex_digit c =
    if leb b'0' c && leb c b'9'
    then some (c - b'0')
    else if leb b'a' c && leb c b'f'
    then some (c - b'a' + 10)
    else if leb b'A' c && leb c b'F'
    then some (c - b'A' + 10)
    else none

-- The digits that stand next; what follows them is ignored.
unfoldable pub read_hex : ℕ → Bytes → ℕ
unfolding hex_digit
read_hex acc [] = acc
read_hex acc (c ∷ s) = elim (hex_digit c) [ none ↦ acc | some d ↦ read_hex (acc * 16 + d) s ]

unfoldable pub hex_magnitude : Bytes → Option ℕ
unfolding read_hex
hex_magnitude [] = none
hex_magnitude (c ∷ s) = elim (hex_digit c) [ none ↦ none | some d ↦ some (read_hex d s) ]

-- White space, a sign and digits; none is `std::invalid_argument`. A prefix `0x` with a digit
-- behind it has three characters, and the range of an `int` is not left in two digits.
unfoldable pub stoi_hex : Bytes → Option ℤ
unfolding skip_ws read_sign hex_magnitude signed
stoi_hex s = let (neg, t) = read_sign (skip_ws s) in do n ← hex_magnitude t; some (signed neg n)

-- `static_cast<unsigned char>` of an `int`
unfoldable pub to_u8 : ℤ → ℕ
to_u8 (pos n) = n % 256
to_u8 (negsuc n) = (256 - suc n % 256) % 256

-- Whether a test holds of all numbers below a bound.
unfoldable pub all_below : ℕ → (ℕ → Bool) → Bool
all_below zero test = true
all_below (suc bound) test = all_below bound test && test bound

pub all_below_sound :
    (bound : ℕ) (test : ℕ → Bool) (c : ℕ) → all_below bound test ≡ true → c < bound → test c ≡ true
unfolding all_below
all_below_sound zero test c passed below = absurd (omega arith)
all_below_sound (suc bound) test c passed below = ground (arith, all_below_sound bound test c)
