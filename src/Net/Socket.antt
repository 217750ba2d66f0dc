-- ===== src/Net/Socket.antt =====
-- src/core/net/tcp.cpp: `recv` on a connection. What arrives is a list of segments, as the network cut
-- it; one `recv` returns no more than the first. The end of the list, or an empty segment, is a
-- `recv` that returns 0 or fails.
pub mod Segmentation
use s2_decentralised_storage.Prelude.{
  ℕ, zero, suc, ◌+◌, ◌-◌, ◌≤◌, ◌<◌, ◌≡◌, ◌≢◌, refl, ap, sym, ◌∙◌, Bool, true, false, Option, none,
  some, List, [], ◌∷◌, ◌++◌, append_assoc, Bytes, length, take, drop, All, ltb, ◌==◌, if◌then◌else◌,
  arith, min, length-append, length-take, length-drop, take-append-drop, Bool-cases, inl, inr,
}

abbrev pub Segments : Type 0
Segments = List Bytes

unfoldable pub flatten : Segments → Bytes
flatten [] = []
flatten (s ∷ segs) = s ++ flatten segs

-- What is left of a segment.
unfoldable pub keep : Bytes → Segments → Segments
keep [] segs = segs
keep (c ∷ s) segs = (c ∷ s) ∷ segs

-- `recv(fd, buf, n, 0)`
unfoldable pub recv : ℕ → Segments → Bytes × Segments
unfolding keep
recv n [] = ([], [])
recv n (s ∷ segs) = (take n s, keep (drop n s) segs)

-- The loop of `recv_line`; `line` is what it has pushed so far. Fuel: one byte a round.
unfoldable pub recv_line_loop : ℕ → Bytes → Segments → Option (Bytes × Segments)
recv_line_loop zero line segs = none
recv_line_loop (suc f) line segs = elim (recv 1 segs).0 [
  | [] ↦ none
  | ch ∷ _ ↦ elim (ch == 10) [
    | true ↦ some (line, (recv 1 segs).1)
    | false ↦
        let next = if ch == 13 then line else line ++ ch ∷ [] in
        elim (ltb 8192 (length next)) [
          | true ↦ none
          | false ↦ recv_line_loop f next (recv 1 segs).1
        ]
  ]
]

unfoldable pub recv_line : Segments → Option (Bytes × Segments)
recv_line segs = recv_line_loop (suc (length (flatten segs))) [] segs

-- `recv_all_text`: all that comes before the end.
unfoldable pub recv_all_loop : ℕ → Bytes → Segments → Bytes
recv_all_loop zero out segs = out
recv_all_loop (suc f) out segs = elim (recv 4096 segs).0 [
  | [] ↦ out
  | c ∷ got ↦ recv_all_loop f (out ++ c ∷ got) (recv 4096 segs).1
]

unfoldable pub recv_all_text : Segments → Bytes
recv_all_text segs = recv_all_loop (suc (length (flatten segs))) [] segs

-- The loops that read a payload: `ask` is the number of bytes that a round asks for. A round that
-- gets nothing ends the loop; the bytes that have come are returned.
unfoldable pub recv_payload : (ℕ → ℕ) → ℕ → ℕ → Segments → Bytes
recv_payload ask zero remaining segs = []
recv_payload ask (suc f) zero segs = []
recv_payload ask (suc f) (suc r) segs = elim (recv (ask (suc r)) segs).0 [
  | [] ↦ []
  | c ∷ got ↦ (c ∷ got) ++ recv_payload ask f (r - length got) (recv (ask (suc r)) segs).1
]

-- `send_all_nothrow`: `accepted` lists what each `send` accepts, 0 for an error; the bytes sent and
-- whether all were.
unfoldable pub send_all_nothrow : List ℕ → Bytes → Bytes × Bool
send_all_nothrow accepted [] = ([], true)
send_all_nothrow [] (c ∷ s) = ([], false)
send_all_nothrow (zero ∷ accepted) (c ∷ s) = ([], false)
send_all_nothrow (suc n ∷ accepted) (c ∷ s) =
    let (sent, done) = send_all_nothrow accepted (drop n s) in (c ∷ take n s ++ sent, done)

-- `send_all_or_throw`: none is its exception.
unfoldable pub send_all_or_throw : List ℕ → Bytes → Option Bytes
unfolding send_all_nothrow
send_all_or_throw accepted s =
    let (sent, done) = send_all_nothrow accepted s in if done then some sent else none

-- No segment is empty: everything comes before the connection ends.
abbrev pub IsSteady : Segments → Type 0
IsSteady = All (λ s. s ≢ [])

pub keep-IsSteady : (s : Bytes) (segs : Segments) → IsSteady segs → IsSteady (keep s segs)
unfolding keep
keep-IsSteady [] segs h = h
keep-IsSteady (c ∷ s) segs h = ((λ e. cc), h)

pub flatten-keep : (s : Bytes) (segs : Segments) → flatten (keep s segs) ≡ s ++ flatten segs
unfolding keep flatten
flatten-keep [] segs = refl
flatten-keep (c ∷ s) segs = refl
