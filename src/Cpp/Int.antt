-- ===== src/Cpp/Int.antt =====
-- `int`: its values, `std::stoi`, `in >> int` and `std::to_string` of it.
use s2_decentralised_storage.Prelude.{
  ℕ, suc, ◌-◌, ◌^◌, ◌<◌, ◌≡◌, Bool, true, false, Option, none, some, [], ◌∷◌, append-nil, ◌++◌,
  Bytes, ltb, leb, ◌==◌, if◌then◌else◌, arith, ◌>>=◌,
}
use s2_decentralised_storage.Cpp.Decimal.{
  to_string, read_unsigned-to_string, read_number, read_number-to_string, read_number-space,
  IsDigitEnd,
}
use s2_decentralised_storage.Cpp.Stream.{skip_ws, is_space}

-- `negsuc n` is -(n + 1).
pub data ℤ : Type 0 where
  pos : ℕ → ℤ
  negsuc : ℕ → ℤ

-- A magnitude with a sign.
unfoldable pub signed : Bool → ℕ → ℤ
signed false n = pos n
signed true n = if n == 0 then pos 0 else negsuc (n - 1)

-- Whether it is a value of a 32-bit `int`.
unfoldable pub fits_int : Bool → ℕ → Bool
fits_int false n = ltb n (2 ^ 31)
fits_int true n = leb n (2 ^ 31)

-- `in >> p` for an `int`
unfoldable pub read_int : Bytes → Option (ℤ × Bytes)
unfolding signed fits_int
read_int s = do
  (neg, n, rest) ← read_number s
  if fits_int neg n then some (signed neg n, rest) else none

-- `std::stoi`: none is one of its exceptions. What follows the number is ignored.
unfoldable pub stoi : Bytes → Option ℤ
unfolding read_int
stoi s = do (n, _) ← read_int s; some n

-- `std::to_string(p)` and `out << p`
unfoldable pub to_string_int : ℤ → Bytes
to_string_int (pos n) = to_string n
to_string_int (negsuc n) = b'-' ∷ to_string (suc n)

-- The values that an `int` has.
abbrev pub IsInt : ℤ → Type 0
IsInt (pos n) = n < 2 ^ 31
IsInt (negsuc n) = n < 2 ^ 31

read_number-minus :
    (n : ℕ) (rest : Bytes)
    → IsDigitEnd rest
    → read_number (b'-' ∷ (to_string n ++ rest)) ≡ some (true, n, rest)
unfolding read_number skip_ws
read_number-minus n rest h = rw (read_unsigned-to_string n rest h)

-- A printed `int` is read back, and what follows it is left.
pub read_int-to_string_int :
    (p : ℤ) (rest : Bytes)
    → IsInt p
    → IsDigitEnd rest
    → read_int (to_string_int p ++ rest) ≡ some (p, rest)
unfolding read_int to_string_int
read_int-to_string_int (pos n) rest fits h = rw (read_number-to_string n rest h) (ground arith)
read_int-to_string_int (negsuc n) rest fits h = rw (read_number-minus (suc n) rest h) (ground arith)

-- So `std::stoi` inverts `std::to_string`.
pub stoi-to_string_int : (p : ℤ) → IsInt p → stoi (to_string_int p) ≡ some p
unfolding stoi
stoi-to_string_int p fits = rw (rw append-nil at (read_int-to_string_int p [] fits tt))

-- White space in front of an `int` is skipped.
pub read_int-space : (c : ℕ) (s : Bytes) → is_space c ≡ true → read_int (c ∷ s) ≡ read_int s
unfolding read_int
read_int-space c s h = rw (read_number-space c s h)
