-- ===== src/Net/Socket/Segmentation.antt =====
-- What is read does not depend on how the network cut the bytes into segments.
use s2_decentralised_storage.Prelude.{
  ℕ, zero, suc, ◌-◌, ◌≤◌, ◌<◌, ◌≡◌, refl, ap, sym, ◌∙◌, true, false, Option, none, some, [], ◌∷◌,
  ◌++◌, append_assoc, append-nil, Bytes, length, take, drop, ltb, ◌==◌, if◌then◌else◌, arith,
  length-append, length-drop, take-append-drop, Bool-cases, inl, inr,
}
use s2_decentralised_storage.Net.Socket.{
  Segments, flatten, keep, recv, recv_line_loop, recv_line, recv_all_loop, recv_all_text,
  recv_payload, IsSteady, keep-IsSteady, flatten-keep,
}

-- The line as it stands in the bytes, and the bytes behind it.
unfoldable pub line_of : Bytes → Bytes → Option (Bytes × Bytes)
line_of line [] = none
line_of line (ch ∷ s) = elim (ch == 10) [
  | true ↦ some (line, s)
  | false ↦
      let next = if ch == 13 then line else line ++ ch ∷ [] in
      elim (ltb 8192 (length next)) [ true ↦ none | false ↦ line_of next s ]
]

-- The same line was read, and the same bytes are left.
abbrev pub SameRead : Option (Bytes × Segments) → Option (Bytes × Bytes) → Type 0
SameRead none none = Unit {0}
SameRead (some (line, segs)) (some (line', s)) = (line ≡ line') × (flatten segs ≡ s) × IsSteady segs
SameRead _ _ = ⊥

recv_line_loop_lem :
    (f : ℕ) (line : Bytes) (segs : Segments)
    → IsSteady segs
    → length (flatten segs) < f
    → SameRead (recv_line_loop f line segs) (line_of line (flatten segs))
unfolding recv_line_loop line_of recv flatten
recv_line_loop_lem zero line segs st h = absurd (omega arith)
recv_line_loop_lem (suc f) line [] st h = tt
recv_line_loop_lem (suc f) line ([] ∷ segs) (ne, st) h = absurd (ne refl)
recv_line_loop_lem (suc f) line ((ch ∷ s) ∷ segs) (ne, st) h =
    let next = if ch == 13 then line else line ++ ch ∷ [] in
    let fuel : length (flatten (keep s segs)) < f = rw (flatten-keep s segs) (omega arith) in
    let ih : SameRead (recv_line_loop f next (keep s segs)) (line_of next (s ++ flatten segs)) =
      rw (← flatten-keep s segs)
        (recv_line_loop_lem f next (keep s segs) (keep-IsSteady s segs st) fuel) in
    elim (Bool-cases (ch == 10)) [
      | inl e ↦
          rw (e, recv_line_loop, line_of, recv) (refl, flatten-keep s segs, keep-IsSteady s segs st)
      | inr e ↦ elim (Bool-cases (ltb 8192 (length next))) [
        | inl l ↦ rw (e, recv_line_loop, line_of, recv, l) tt
        | inr l ↦ rw (e, recv_line_loop, line_of, recv, l) ih
      ]
    ]

-- On a connection without empty segments `recv_line` reads the line that stands in the bytes, however
-- they come: to the first line end, without carriage returns, and not at all if it is longer than
-- 8192 or the connection ends first. The bytes behind the line are left, without empty segments.
pub recv_line_lem :
    (segs : Segments) → IsSteady segs → SameRead (recv_line segs) (line_of [] (flatten segs))
unfolding recv_line
recv_line_lem segs st = recv_line_loop_lem (suc (length (flatten segs))) [] segs st (omega arith)

-- What the loop has, and what still comes.
recv_all_loop_lem :
    (f : ℕ) (out : Bytes) (segs : Segments)
    → IsSteady segs
    → length (flatten segs) < f
    → recv_all_loop f out segs ≡ out ++ flatten segs
unfolding recv_all_loop recv flatten
recv_all_loop_lem zero out segs st h = absurd (omega arith)
recv_all_loop_lem (suc f) out [] st h = sym (append-nil out)
recv_all_loop_lem (suc f) out ([] ∷ segs) (ne, st) h = absurd (ne refl)
recv_all_loop_lem (suc f) out ((c ∷ s) ∷ segs) (ne, st) h =
    let got = take 4095 s in
    let left = drop 4095 s in
    let whole : got ++ left ≡ s = take-append-drop 4095 s in
    let fuel : length (flatten (keep left segs)) < f = rw (flatten-keep left segs) (
      omega (
        arith,
        length-drop 4095 s,
        length-append left (flatten segs),
        length-append s (flatten segs),
      )) in
    recv_all_loop_lem f (out ++ c ∷ got) (keep left segs) (keep-IsSteady left segs st) fuel
    ∙ ap (◌++◌ (out ++ c ∷ got)) (flatten-keep left segs)
    ∙ append_assoc out (c ∷ got) (left ++ flatten segs)
    ∙ ap (λ t. out ++ c ∷ t)
        (sym (append_assoc got left (flatten segs)) ∙ ap (λ t. t ++ flatten segs) whole)

-- `recv_all_text` returns all the bytes of a connection without empty segments, however they come.
pub recv_all_text_lem : (segs : Segments) → IsSteady segs → recv_all_text segs ≡ flatten segs
unfolding recv_all_text
recv_all_text_lem segs st = recv_all_loop_lem (suc (length (flatten segs))) [] segs st (omega arith)

take-split :
    (n r : ℕ) (s t : Bytes)
    → n ≤ r
    → take n s ++ take (r - length (take n s)) (drop n s ++ t) ≡ take r (s ++ t)
take-split zero r s t h = ap (λ k. take k (s ++ t)) (omega arith)
take-split (suc n) zero s t h = absurd (omega arith)
take-split (suc n) (suc r) [] t h = let e : suc r - 0 ≡ suc r = omega arith in ap (λ k. take k t) e
take-split (suc n) (suc r) (c ∷ s) t h =
    let e : suc r - suc (length (take n s)) ≡ r - length (take n s) = omega arith in
    ap (λ k. c ∷ (take n s ++ take k (drop n s ++ t))) e
    ∙ ap (◌∷◌ c) (take-split n r s t (omega arith))

-- A round asks for a byte at least, and never for more than remain.
abbrev pub IsAsk : (ℕ → ℕ) → Type 0
IsAsk ask = (r : ℕ) → (0 < ask (suc r)) × (ask (suc r) ≤ suc r)

-- A round of the payload loop that gets something.
payload_step :
    (ask : ℕ → ℕ) (f r c : ℕ) (got : Bytes) (segs rest : Segments)
    → recv (ask (suc r)) segs ≡ (c ∷ got, rest)
    → recv_payload ask (suc f) (suc r) segs ≡ (c ∷ got) ++ recv_payload ask f (r - length got) rest
unfolding recv_payload
payload_step ask f r c got segs rest e =
    ap
      (λ x. elim x.0 as (λ _. Bytes) [
        | [] ↦ []
        | d ∷ more ↦ (d ∷ more) ++ recv_payload ask f (r - length more) x.1
      ])
      e

-- The first bytes of a segment, and what is left of it.
recv-suc :
    (n k c : ℕ) (s : Bytes) (segs : Segments)
    → n ≡ suc k
    → recv n ((c ∷ s) ∷ segs) ≡ (c ∷ take k s, keep (drop k s) segs)
unfolding recv
recv-suc n k c s segs e = ap (λ m. recv m ((c ∷ s) ∷ segs)) e

-- On a connection without empty segments a payload loop whose rounds ask for a byte at least and for
-- no more than remain, with as much fuel as remains, returns the next bytes: as many as remain, or
-- all there are.
pub recv_payload_lem :
    (ask : ℕ → ℕ) (f remaining : ℕ) (segs : Segments)
    → IsAsk ask
    → IsSteady segs
    → remaining ≤ f
    → recv_payload ask f remaining segs ≡ take remaining (flatten segs)
unfolding recv_payload recv flatten
recv_payload_lem ask zero zero segs a st h = refl
recv_payload_lem ask zero (suc r) segs a st h = absurd (omega arith)
recv_payload_lem ask (suc f) zero segs a st h = refl
recv_payload_lem ask (suc f) (suc r) [] a st h = refl
recv_payload_lem ask (suc f) (suc r) ([] ∷ segs) a (ne, st) h = absurd (ne refl)
recv_payload_lem ask (suc f) (suc r) ((c ∷ s) ∷ segs) a (ne, st) h =
    let k = ask (suc r) - 1 in
    let left = drop k s in
    payload_step ask f r c (take k s) ((c ∷ s) ∷ segs) (keep left segs)
      (recv-suc (ask (suc r)) k c s segs (omega (arith, (a r).0)))
    ∙ ap (◌++◌ (c ∷ take k s)) (
        recv_payload_lem ask f (r - length (take k s)) (keep left segs) a
          (keep-IsSteady left segs st) (omega arith)
        ∙ ap (take (r - length (take k s))) (flatten-keep left segs))
    ∙ ap (◌∷◌ c) (take-split k r s (flatten segs) (omega (arith, (a r).1)))
