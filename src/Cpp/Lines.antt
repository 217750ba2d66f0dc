-- ===== src/Cpp/Lines.antt =====
-- `while (getline(in, item, d))`: the items of a text up to each delimiter.
use s2_decentralised_storage.Prelude.{
  ℕ, ◌≡◌, ◌≢◌, refl, some, List, [], ◌∷◌, ◌++◌, Bytes, All, ◌==◌, if◌then◌else◌, arith,
}
use s2_decentralised_storage.Cpp.Stream.{take_line, read_line}

-- A character in front of the first item; the last item has no delimiter behind it.
unfoldable pub push_front : ℕ → List Bytes → List Bytes
push_front c [] = (c ∷ []) ∷ []
push_front c (l ∷ ls) = (c ∷ l) ∷ ls

unfoldable pub split_lines : ℕ → Bytes → List Bytes
unfolding push_front
split_lines d [] = []
split_lines d (c ∷ s) =
    let rest = split_lines d s in if c == d then [] ∷ rest else push_front c rest

take_line_lem :
    (d c : ℕ) (s : Bytes)
    → split_lines d (c ∷ s) ≡ (take_line d (c ∷ s)).0 ∷ split_lines d (take_line d (c ∷ s)).1
unfolding split_lines push_front take_line
take_line_lem d c [] = ground arith
take_line_lem d c (e ∷ s) = ground (arith, take_line_lem d e s)

-- The items are what one `getline` after the other reads.
pub split_lines-read_line :
    (d : ℕ) (s line rest : Bytes)
    → read_line d s ≡ some (line, rest)
    → split_lines d s ≡ line ∷ split_lines d rest
unfolding read_line
split_lines-read_line d [] line rest h = cc
split_lines-read_line d (c ∷ s) line rest h = ground (arith, h, take_line_lem d c s)

-- A line without the delimiter in it is the first item.
pub split_lines-append :
    (d : ℕ) (line rest : Bytes)
    → All (λ c. c ≢ d) line
    → split_lines d (line ++ d ∷ rest) ≡ line ∷ split_lines d rest
unfolding split_lines push_front
split_lines-append d [] rest h = ground arith
split_lines-append d (c ∷ line) rest (p, h) = ground (arith, p, split_lines-append d line rest h)

pub split_lines_end :
    (d : ℕ) (line : Bytes) → line ≢ [] → All (λ c. c ≢ d) line → split_lines d line ≡ line ∷ []
unfolding split_lines push_front
split_lines_end d [] ne h = absurd (ne refl)
split_lines_end d (c ∷ []) ne (p, h) = ground (arith, p)
split_lines_end d (c ∷ e ∷ line) ne (p, h) =
    ground (arith, p, split_lines_end d (e ∷ line) (λ q. cc) h)
