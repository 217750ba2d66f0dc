-- ===== src/Cpp/Decimal.antt =====
-- Decimal numbers: `std::to_string`, `out << n`, `in >> n` for `uint64_t`/`size_t`, and the digits
-- that `std::stoi` and `in >> int` read.
use s2_decentralised_storage.Prelude.{
  ℕ, zero, suc, ◌+◌, ◌-◌, ◌*◌, ◌/◌, ◌%◌, ◌^◌, ◌≤◌, ◌<◌, ◌≡◌, ◌≢◌, refl, Bool, true, false, ◌&&◌,
  Option, none, some, [], ◌∷◌, ◌++◌, Bytes, length, All, All-append, All-mono, Bool-cases, inl, inr,
  leb, ltb, ◌==◌, if◌then◌else◌, arith, ◌>>=◌, append_assoc, append-nil, ◌∙◌,
}
use native.Mathlib.Nat.{pow-suc}
use s2_decentralised_storage.Cpp.Stream.{is_space, skip_ws, IsGraph, IsWord, IsBreak}

abbrev pub u64_mod : ℕ
u64_mod = 2 ^ 64

unfoldable pub is_digit : ℕ → Bool
is_digit c = leb b'0' c && leb c b'9'

-- The rounds of the printer, from the last digit to the first.
unfoldable pub print_loop : ℕ → ℕ → Bytes → Bytes
print_loop zero n out = out
print_loop (suc f) n out = elim (ltb n 10) [
  | true ↦ (b'0' + n) ∷ out
  | false ↦ print_loop f (n / 10) ((b'0' + n % 10) ∷ out)
]

-- `std::to_string(n)` and `out << n`
unfoldable pub to_string : ℕ → Bytes
to_string n = print_loop (suc n) n []

-- The value of the digits that stand next, behind those read, and what follows them.
unfoldable pub read_digits : ℕ → Bytes → ℕ × Bytes
unfolding is_digit
read_digits acc [] = (acc, [])
read_digits acc (c ∷ s) = if is_digit c then read_digits (acc * 10 + (c - b'0')) s else (acc, c ∷ s)

-- At least one digit.
unfoldable pub read_unsigned : Bytes → Option (ℕ × Bytes)
unfolding read_digits
read_unsigned [] = none
read_unsigned (c ∷ s) = if is_digit c then some (read_digits 0 (c ∷ s)) else none

-- White space and a sign: whether it is a minus, the magnitude, and what follows.
unfoldable pub read_sign : Bytes → Bool × Bytes
read_sign [] = (false, [])
read_sign (c ∷ s) =
    if c == b'-' then (true, s) else if c == b'+' then (false, s) else (false, c ∷ s)

unfoldable pub read_number : Bytes → Option (Bool × ℕ × Bytes)
unfolding read_unsigned read_sign skip_ws
read_number s =
    let (neg, t) = read_sign (skip_ws s) in do (n, rest) ← read_unsigned t; some (neg, n, rest)

-- `in >> n` for a `uint64_t` or a `size_t`: a minus sign wraps around, as in `strtoull`.
unfoldable pub read_u64 : Bytes → Option (ℕ × Bytes)
read_u64 s = do
  (neg, n, rest) ← read_number s
  if ltb n u64_mod then some (if neg then (u64_mod - n) % u64_mod else n, rest) else none

abbrev pub IsDigit : ℕ → Type 0
IsDigit c = (b'0' ≤ c) × (c ≤ b'9')

-- No digit stands next.
abbrev pub IsDigitEnd : Bytes → Type 0
IsDigitEnd [] = Unit {0}
IsDigitEnd (c ∷ s) = is_digit c ≡ false

pub IsDigitEnd-of_IsBreak : (s : Bytes) → IsBreak s → IsDigitEnd s
unfolding is_space is_digit
IsDigitEnd-of_IsBreak [] b = tt
IsDigitEnd-of_IsBreak (c ∷ s) b = ground arith

read_digits_end : (n : ℕ) (s : Bytes) → IsDigitEnd s → read_digits n s ≡ (n, s)
unfolding read_digits
read_digits_end n [] h = refl
read_digits_end n (c ∷ s) h = ground arith

-- Reading the digits that the printer wrote in front of `out` goes on from `n` at `out`.
read_digits-print_loop :
    (f n : ℕ) (out : Bytes) → n < f → read_digits 0 (print_loop f n out) ≡ read_digits n out
unfolding print_loop read_digits
read_digits-print_loop zero n out h = absurd (omega arith)
read_digits-print_loop (suc f) n out h =
    ground (arith, read_digits-print_loop f (n / 10) ((b'0' + n % 10) ∷ out))

-- The printer puts digits in front.
abbrev Printed : Bytes → Bytes → Type 0
Printed out s = (w : Bytes) × (s ≡ w ++ out) × All IsDigit w × (w ≢ [])

snoc-ne-nil : (w : Bytes) (d : ℕ) → w ++ d ∷ [] ≢ []
snoc-ne-nil [] d e = cc
snoc-ne-nil (c ∷ w) d e = cc

print_loop_lem : (f n : ℕ) (out : Bytes) → n < f → Printed out (print_loop f n out)
unfolding print_loop
print_loop_lem zero n out h = absurd (omega arith)
print_loop_lem (suc f) n out h = elim (Bool-cases (ltb n 10)) [
  | inl p ↦ rw (p, print_loop) ((b'0' + n) ∷ [], refl, (ground arith, tt), λ e. cc)
  | inr p ↦
      let d = b'0' + n % 10 in
      let (w, e, digits, some_digit) = print_loop_lem f (n / 10) (d ∷ out) (ground arith) in
      rw (p, print_loop)
        (
          w ++ d ∷ [],
          rw (append_assoc w (d ∷ []) out) e,
          All-append IsDigit w (d ∷ []) digits (omega arith, tt),
          snoc-ne-nil w d,
        )
]

to_string-Printed : (n : ℕ) → Printed [] (to_string n)
unfolding to_string
to_string-Printed n = print_loop_lem (suc n) n [] (omega arith)

pub to_string-All : (n : ℕ) → All IsDigit (to_string n)
to_string-All n = let (w, e, digits, _) = to_string-Printed n in rw (e, append-nil w) digits

pub to_string-ne-nil : (n : ℕ) → to_string n ≢ []
to_string-ne-nil n =
    let (w, e, _, some_digit) = to_string-Printed n in rw (e, append-nil w) some_digit

IsGraph-of_IsDigit : (c : ℕ) → IsDigit c → IsGraph c
unfolding is_space
IsGraph-of_IsDigit c h = ground arith

-- A printed number is a word.
pub to_string-IsWord : (n : ℕ) → IsWord (to_string n)
to_string-IsWord n = record {
  nonempty = to_string-ne-nil n;
  graph = All-mono IsDigit IsGraph (to_string n) IsGraph-of_IsDigit (to_string-All n);
}

print_loop-append :
    (f n : ℕ) (out rest : Bytes) → print_loop f n out ++ rest ≡ print_loop f n (out ++ rest)
unfolding print_loop
print_loop-append zero n out rest = refl
print_loop-append (suc f) n out rest =
    ground (arith, print_loop-append f (n / 10) ((b'0' + n % 10) ∷ out) rest)

-- The digits that the printer wrote have the value that was printed, whatever follows them.
pub read_digits-to_string :
    (n : ℕ) (rest : Bytes) → IsDigitEnd rest → read_digits 0 (to_string n ++ rest) ≡ (n, rest)
unfolding to_string
read_digits-to_string n rest h =
    rw (print_loop-append (suc n) n [] rest)
      (read_digits-print_loop (suc n) n rest (omega arith) ∙ read_digits_end n rest h)

read_unsigned-digits :
    (w rest : Bytes)
    → w ≢ []
    → All IsDigit w
    → read_unsigned (w ++ rest) ≡ some (read_digits 0 (w ++ rest))
unfolding read_unsigned is_digit
read_unsigned-digits [] rest h g = absurd (h refl)
read_unsigned-digits (c ∷ w) rest h (p, g) = ground arith

pub read_unsigned-to_string :
    (n : ℕ) (rest : Bytes) → IsDigitEnd rest → read_unsigned (to_string n ++ rest) ≡ some (n, rest)
read_unsigned-to_string n rest h = rw (
  read_unsigned-digits (to_string n) rest (to_string-ne-nil n) (to_string-All n),
  read_digits-to_string n rest h,
)

read_number-digits :
    (w rest : Bytes)
    → w ≢ []
    → All IsDigit w
    → read_number (w ++ rest)
      ≡ some (false, (read_digits 0 (w ++ rest)).0, (read_digits 0 (w ++ rest)).1)
unfolding read_number is_space is_digit
read_number-digits [] rest h g = absurd (h refl)
read_number-digits (c ∷ w) rest h (p, g) = ground arith

-- The stream extraction reads a printed number back, and leaves what follows it.
pub read_number-to_string :
    (n : ℕ) (rest : Bytes)
    → IsDigitEnd rest
    → read_number (to_string n ++ rest) ≡ some (false, n, rest)
read_number-to_string n rest h = rw (
  read_number-digits (to_string n) rest (to_string-ne-nil n) (to_string-All n),
  read_digits-to_string n rest h,
)

pub read_u64-to_string :
    (n : ℕ) (rest : Bytes)
    → n < u64_mod
    → IsDigitEnd rest
    → read_u64 (to_string n ++ rest) ≡ some (n, rest)
unfolding read_u64
read_u64-to_string n rest fits h = rw (read_number-to_string n rest h) (ground arith)

-- White space in front of a number is skipped.
pub read_number-space :
    (c : ℕ) (s : Bytes) → is_space c ≡ true → read_number (c ∷ s) ≡ read_number s
unfolding read_number skip_ws
read_number-space c s h = ground arith

pub read_u64-space : (c : ℕ) (s : Bytes) → is_space c ≡ true → read_u64 (c ∷ s) ≡ read_u64 s
unfolding read_u64
read_u64-space c s h = rw (read_number-space c s h)

-- A number below `10 ^ k` has `k` digits at most.
length-print_loop :
    (f k n : ℕ) (out : Bytes) → n < 10 ^ suc k → length (print_loop f n out) ≤ suc k + length out
unfolding print_loop
length-print_loop zero k n out h = omega arith
length-print_loop (suc f) zero n out h = elim (Bool-cases (ltb n 10)) [
  | inl p ↦ rw (p, print_loop) (omega arith)
  | inr p ↦ absurd (ground arith)
]
length-print_loop (suc f) (suc k) n out h = elim (Bool-cases (ltb n 10)) [
  | inl p ↦ rw (p, print_loop) (omega arith)
  | inr p ↦
      let small : n / 10 < 10 ^ suc k = omega (arith, pow-suc 10 (suc k)) in
      rw (p, print_loop)
        (omega (arith, length-print_loop f k (n / 10) ((b'0' + n % 10) ∷ out) small))
]

-- A value of a `uint64_t` has 20 digits at most.
pub length-to_string : (n : ℕ) → n < u64_mod → length (to_string n) ≤ 20
unfolding to_string
length-to_string n h = length-print_loop (suc n) 19 n [] (omega (arith, h))
