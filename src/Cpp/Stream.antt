-- ===== src/Cpp/Stream.antt =====
-- `std::istream >> std::string` on the bytes that are left. An extraction that fails returns
-- `none`; the program never reads on from a failed stream.
use s2_decentralised_storage.Prelude.{
  ℕ, ◌≡◌, ◌≢◌, refl, Bool, true, false, ◌&&◌, ◌||◌, Option, none, some, [], ◌∷◌, ◌++◌, Bytes, All,
  leb, ◌==◌, if◌then◌else◌, arith,
}

-- `isspace` in the C locale
unfoldable pub is_space : ℕ → Bool
is_space c = c == b' ' || leb 9 c && leb c 13

unfoldable pub skip_ws : Bytes → Bytes
unfolding is_space
skip_ws [] = []
skip_ws (c ∷ s) = if is_space c then skip_ws s else c ∷ s

-- The characters up to the first white space, and what follows.
unfoldable pub take_word : Bytes → Bytes × Bytes
unfolding is_space
take_word [] = ([], [])
take_word (c ∷ s) = let (w, r) = take_word s in if is_space c then ([], c ∷ s) else (c ∷ w, r)

unfoldable pub word_of : Bytes → Option (Bytes × Bytes)
unfolding take_word
word_of [] = none
word_of (c ∷ s) = some (take_word (c ∷ s))

-- `in >> word`
unfoldable pub read_word : Bytes → Option (Bytes × Bytes)
unfolding skip_ws word_of
read_word s = word_of (skip_ws s)

-- `getline(in, line)`: the characters up to the delimiter, which is consumed; none at the end.
unfoldable pub take_line : ℕ → Bytes → Bytes × Bytes
take_line d [] = ([], [])
take_line d (c ∷ s) = let (l, r) = take_line d s in if c == d then ([], s) else (c ∷ l, r)

unfoldable pub read_line : ℕ → Bytes → Option (Bytes × Bytes)
unfolding take_line
read_line d [] = none
read_line d (c ∷ s) = some (take_line d (c ∷ s))

abbrev pub IsGraph : ℕ → Type 0
IsGraph c = is_space c ≡ false

-- A text that `>>` reads back whole.
pub record IsWord (w : Bytes) : Type 0 where
  pub nonempty : w ≢ []
  pub graph : All IsGraph w

-- White space, or the end of the text, stands next.
abbrev pub IsBreak : Bytes → Type 0
IsBreak [] = Unit {0}
IsBreak (c ∷ s) = is_space c ≡ true

pub take_word-append :
    (w rest : Bytes) → All IsGraph w → IsBreak rest → take_word (w ++ rest) ≡ (w, rest)
unfolding take_word
take_word-append [] [] g b = refl
take_word-append [] (c ∷ s) g b = ground arith
take_word-append (c ∷ w) rest (p, g) b = ground (arith, take_word-append w rest g b)

-- A word in front of a break is read whole, and the break is left.
pub read_word-append :
    (w rest : Bytes) → IsWord w → IsBreak rest → read_word (w ++ rest) ≡ some (w, rest)
unfolding read_word
read_word-append [] rest g b = absurd (g.nonempty refl)
read_word-append (c ∷ w) rest g b = ground (arith, take_word-append (c ∷ w) rest g.graph b, g.graph)

-- One separating space or line end is skipped.
pub read_word-space : (c : ℕ) (s : Bytes) → is_space c ≡ true → read_word (c ∷ s) ≡ read_word s
unfolding read_word
read_word-space c s b = ground arith
