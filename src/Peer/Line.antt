-- ===== src/Peer/Line.antt =====
-- The request lines, as the service reads them.
use s2_decentralised_storage.Prelude.{
  ℕ, ◌+◌, ◌≤◌, ◌<◌, ◌≡◌, ◌≢◌, refl, subst, ap, sym, ◌∙◌, true, false, Option, none, some, [], ◌∷◌,
  ◌++◌, append_assoc, append-nil, Bytes, length, All, ltb, ◌==◌, if◌then◌else◌, arith,
  length-append,
}
use s2_decentralised_storage.Cpp.Stream.{
  is_space, IsGraph, IsWord, read_word-append, read_word-space,
}
use s2_decentralised_storage.Cpp.Decimal.{
  u64_mod, to_string, read_number-to_string, read_number-space,
}
use s2_decentralised_storage.Net.Socket.{Segments, flatten, recv_line, IsSteady}
use s2_decentralised_storage.Net.Socket.Segmentation.{line_of, SameRead, recv_line_lem}
use s2_decentralised_storage.Peer.Service.{extract_word, extract_size}

-- No line end and no carriage return.
abbrev pub IsPlain : ℕ → Type 0
IsPlain c = (c ≢ 10) × (c ≢ 13)

pub IsPlain-of_IsGraph : (c : ℕ) → IsGraph c → IsPlain c
unfolding is_space
IsPlain-of_IsGraph c g = (λ e. ground arith, λ e. ground arith)

-- One character of the line is pushed.
line_of_step :
    (acc : Bytes) (c : ℕ) (s : Bytes)
    → IsPlain c
    → length (acc ++ c ∷ []) ≤ 8192
    → line_of acc (c ∷ s) ≡ line_of (acc ++ c ∷ []) s
unfolding line_of
line_of_step acc c s (p, q) fits =
    let n : (c == 10) ≡ false = ground arith in
    let r : (c == 13) ≡ false = ground arith in
    let next : (if c == 13 then acc else acc ++ c ∷ []) ≡ acc ++ c ∷ [] = rw (r) in
    let short : ltb 8192 (length (acc ++ c ∷ [])) ≡ false = ground (arith, fits) in
    rw (line_of, n)
      (ap
          (λ x. elim (ltb 8192 (length x)) as (λ _. Option (Bytes × Bytes)) [
            | true ↦ none
            | false ↦ line_of x s
          ])
          next
        ∙ ap
            (λ b. elim b as (λ _. Option (Bytes × Bytes)) [
              | true ↦ none
              | false ↦ line_of (acc ++ c ∷ []) s
            ])
            short)

line_of_lem :
    (acc w rest : Bytes)
    → All IsPlain w
    → length acc + length w ≤ 8192
    → line_of acc (w ++ 10 ∷ rest) ≡ some (acc ++ w, rest)
unfolding line_of
line_of_lem acc [] rest h k = ap (λ l. some (l, rest)) (sym (append-nil acc))
line_of_lem acc (c ∷ w) rest (p, h) k =
    let fits : length (acc ++ c ∷ []) + length w ≤ 8192 =
      omega (arith, length-append acc (c ∷ [])) in
    line_of_step acc c (w ++ 10 ∷ rest) p (omega (arith, fits))
    ∙ line_of_lem (acc ++ c ∷ []) w rest h fits
    ∙ ap (λ l. some (l, rest)) (append_assoc acc (c ∷ []) w)

-- A line that was read, and the bytes behind it.
abbrev pub LineRead : Segments → Bytes → Bytes → Type 0
LineRead segs line rest =
    (left : Segments) × (recv_line segs ≡ some (line, left)) × (flatten left ≡ rest) × IsSteady left

same-LineRead :
    (o : Option (Bytes × Segments)) (line rest : Bytes)
    → SameRead o (some (line, rest))
    → (left : Segments) × (o ≡ some (line, left)) × (flatten left ≡ rest) × IsSteady left
same-LineRead none line rest h = absurd h
same-LineRead (some (l, segs)) line rest (e, f, st) = (segs, ap (λ x. some (x, segs)) e, f, st)

pub recv_line-append :
    (segs : Segments) (w rest : Bytes)
    → IsSteady segs
    → flatten segs ≡ w ++ 10 ∷ rest
    → All IsPlain w
    → length w ≤ 8192
    → LineRead segs w rest
recv_line-append segs w rest st e plain fits = same-LineRead (recv_line segs) w rest (
    subst (SameRead (recv_line segs))
      (ap (line_of []) e ∙ line_of_lem [] w rest plain (omega (arith, fits)))
      (recv_line_lem segs st))

pub extract_word_end : (w : Bytes) → IsWord w → extract_word w ≡ (w, [])
unfolding extract_word
extract_word_end w g = let e = read_word-append w [] g tt in rw (rw append-nil at e)

pub extract_word-append :
    (w rest : Bytes) → IsWord w → extract_word (w ++ b' ' ∷ rest) ≡ (w, b' ' ∷ rest)
unfolding extract_word
extract_word-append w rest g = rw (read_word-append w (b' ' ∷ rest) g (unfold is_space in refl))

pub extract_word-space : (s : Bytes) → extract_word (b' ' ∷ s) ≡ extract_word s
unfolding extract_word
extract_word-space s = rw (read_word-space b' ' s (unfold is_space in refl))

pub extract_size-to_string : (n : ℕ) → n < u64_mod → extract_size (b' ' ∷ to_string n) ≡ n
unfolding extract_size
extract_size-to_string n h =
    let e = read_number-to_string n [] tt in
    rw
      (
        read_number-space b' ' (to_string n) (unfold is_space in refl),
        extract_size,
        rw append-nil at e,
      )
      (ground arith)
