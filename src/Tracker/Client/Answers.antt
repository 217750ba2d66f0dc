-- ===== src/Tracker/Client/Answers.antt =====
-- What the client makes of the tracker's answers.
use s2_decentralised_storage.Prelude.{
  ℕ, zero, suc, ◌^◌, ◌≤◌, ◌<◌, ◌≡◌, ◌≢◌, refl, ap, ◌∙◌, Option, none, some, List, [], ◌∷◌, ◌++◌,
  map, Bytes, length, All, All-mono, length-append, arith,
}
use s2_decentralised_storage.Cpp.Stream.{
  is_space, IsGraph, IsWord, read_word, read_word-append, read_word-space,
}
use s2_decentralised_storage.Cpp.Decimal.{to_string, is_digit}
use s2_decentralised_storage.Cpp.Int.{
  pos, IsInt, to_string_int, read_int, stoi-to_string_int, read_int-to_string_int, read_int-space,
}
use s2_decentralised_storage.Cpp.Lines.{split_lines, split_lines-append}
use s2_decentralised_storage.Dht.Id.{PeerEndpoint}
use s2_decentralised_storage.Net.Endpoint.RoundTrip.{entry-IsWord}
use s2_decentralised_storage.Peer.Line.{IsPlain-of_IsGraph, extract_word_end}
use s2_decentralised_storage.Peer.Service.{extract_word}
use s2_decentralised_storage.Tracker.{entry, lines, or_newline, is_empty, repair_lines}
use s2_decentralised_storage.Tracker.Client.{
  Result, ok, split_first, with_port, read_split, read_location, read_peer, keep, read_lines,
  read_peers, read_where, read_ids, read_repairs,
}

-- An address that the client tells from its port: a word without a colon.
pub record IsHost (ip : Bytes) : Type 0 where
  pub word : IsWord ip
  pub plain : All (λ c. c ≢ b':') ip

-- An address and a port as the tracker prints them.
abbrev pub IsEndpoint : PeerEndpoint → Type 0
IsEndpoint ep = IsHost ep.ip × IsInt ep.port

abbrev pub print : PeerEndpoint → Bytes
print ep = entry ep.ip ep.port

split_first-append :
    (h t : Bytes) → All (λ c. c ≢ b':') h → split_first (h ++ b':' ∷ t) ≡ some (h, t)
unfolding split_first
split_first-append [] t p = refl
split_first-append (c ∷ h) t (p, q) = ground (arith, p, split_first-append h t q)

read_location-cons :
    (h t : Bytes) (c : ℕ) → read_location (h ++ c ∷ t) ≡ read_split (split_first (h ++ c ∷ t))
unfolding read_location
read_location-cons [] t c = refl
read_location-cons (d ∷ h) t c = refl

read_location-print : (ep : PeerEndpoint) → IsEndpoint ep → read_location (print ep) ≡ ok (some ep)
unfolding entry read_split with_port
read_location-print ep (h, i) =
    read_location-cons ep.ip (to_string_int ep.port) b':'
    ∙ ap read_split (split_first-append ep.ip (to_string_int ep.port) h.plain)
    ∙ ap (with_port ep.ip) (stoi-to_string_int ep.port i)

read_peer-print : (ep : PeerEndpoint) → IsEndpoint ep → read_peer (print ep) ≡ ok (some ep)
unfolding read_peer
read_peer-print ep (h, i) =
    ap (λ w. read_location w.0) (extract_word_end (print ep) (entry-IsWord ep.ip ep.port h.word))
    ∙ read_location-print ep (h, i)

print-IsLine : (ep : PeerEndpoint) → IsEndpoint ep → All (λ c. c ≢ 10) (print ep)
print-IsLine ep (h, i) =
    All-mono IsGraph (λ c. c ≢ 10) (print ep) (λ c g. (IsPlain-of_IsGraph c g).0)
      (entry-IsWord ep.ip ep.port h.word).graph

split_lines-lines :
    (eps : List PeerEndpoint)
    → All IsEndpoint eps
    → split_lines 10 (lines (map print eps)) ≡ map print eps
unfolding lines split_lines
split_lines-lines [] h = refl
split_lines-lines (ep ∷ eps) (p, h) =
    split_lines-append 10 (print ep) (lines (map print eps)) (print-IsLine ep p)
    ∙ ap (◌∷◌ (print ep)) (split_lines-lines eps h)

or_newline-append : (h : Bytes) (c : ℕ) (t : Bytes) → or_newline (h ++ c ∷ t) ≡ h ++ c ∷ t
unfolding or_newline is_empty
or_newline-append [] c t = refl
or_newline-append (d ∷ h) c t = refl

module _ (read : Bytes → Result (Option PeerEndpoint))
    (read_print : (ep : PeerEndpoint) → IsEndpoint ep → read (print ep) ≡ ok (some ep))
    (read_empty : read [] ≡ ok none) where
  read_lines-map :
      (eps : List PeerEndpoint) → All IsEndpoint eps → read_lines read (map print eps) ≡ ok eps
  unfolding read_lines keep
  read_lines-map [] h = refl
  read_lines-map (ep ∷ eps) (p, h) = rw (read_print ep p, read_lines, read_lines-map eps h)

  -- An answer of lines, or the line end alone.
  pub read_answer :
      (eps : List PeerEndpoint)
      → All IsEndpoint eps
      → read_lines read (split_lines 10 (or_newline (lines (map print eps)))) ≡ ok eps
  unfolding or_newline is_empty lines
  read_answer [] h = unfold split_lines read_lines keep in rw (read_empty)
  read_answer (ep ∷ eps) h =
      ap (λ s. read_lines read (split_lines 10 s))
        (or_newline-append (print ep) 10 (lines (map print eps)))
      ∙ ap (read_lines read) (split_lines-lines (ep ∷ eps) h)
      ∙ read_lines-map (ep ∷ eps) h

pub read_where-lines :
    (eps : List PeerEndpoint)
    → All IsEndpoint eps
    → read_where (or_newline (lines (map print eps))) ≡ ok eps
unfolding read_where
read_where-lines eps h =
    read_answer read_location read_location-print (unfold read_location in refl) eps h

pub read_peers-lines :
    (eps : List PeerEndpoint)
    → All IsEndpoint eps
    → read_peers (or_newline (lines (map print eps))) ≡ ok eps
unfolding read_peers read_word read_peer extract_word
read_peers-lines eps h = read_answer read_peer read_peer-print refl eps h

-- A line of NEED_REPAIR that is read back: a word, and a number that is an `int`.
abbrev pub IsRepair : Bytes × ℕ → Type 0
IsRepair r = IsWord r.0 × (r.1 < 2 ^ 31)

read_ids-step :
    (f : ℕ) (id rest : Bytes) (n : ℕ)
    → IsWord id
    → n < 2 ^ 31
    → read_ids (suc f) (id ++ b' ' ∷ (to_string n ++ 10 ∷ rest)) ≡ id ∷ read_ids f (10 ∷ rest)
unfolding read_ids
read_ids-step f id rest n g h =
    let count : read_int (b' ' ∷ (to_string n ++ 10 ∷ rest)) ≡ some (pos n, 10 ∷ rest) =
      read_int-space b' ' (to_string n ++ 10 ∷ rest) (unfold is_space in refl)
      ∙ unfold to_string_int in
        read_int-to_string_int (pos n) (10 ∷ rest) h (unfold is_digit in refl) in
    rw (
      read_word-append id (b' ' ∷ (to_string n ++ 10 ∷ rest)) g (unfold is_space in refl),
      read_ids,
      count,
    )

read_ids-newline : (f : ℕ) (s : Bytes) → read_ids f (10 ∷ s) ≡ read_ids f s
unfolding read_ids
read_ids-newline zero s = refl
read_ids-newline (suc f) s = rw (read_word-space 10 s (unfold is_space in refl), read_ids)

-- With a round for each line, all of them are read.
read_ids-repair_lines :
    (f : ℕ) (l : List (Bytes × ℕ))
    → length l < f
    → All IsRepair l
    → read_ids f (repair_lines l) ≡ map (λ r. r.0) l
unfolding repair_lines
read_ids-repair_lines zero l k h = absurd (omega (arith, k))
read_ids-repair_lines (suc f) [] k h = unfold read_ids read_word in refl
read_ids-repair_lines (suc f) ((id, n) ∷ l) k ((g, fits), h) =
    read_ids-step f id (repair_lines l) n g fits
    ∙ ap (◌∷◌ id)
        (read_ids-newline f (repair_lines l) ∙ read_ids-repair_lines f l (omega (arith, k)) h)

length-repair_lines : (l : List (Bytes × ℕ)) → length l ≤ length (repair_lines l)
unfolding repair_lines
length-repair_lines [] = omega arith
length-repair_lines ((id, n) ∷ l) = omega (
  arith,
  length-repair_lines l,
  length-append id (b' ' ∷ (to_string n ++ 10 ∷ repair_lines l)),
  length-append (to_string n) (10 ∷ repair_lines l),
)

pub read_repairs-repair_lines :
    (l : List (Bytes × ℕ))
    → All IsRepair l
    → read_repairs (or_newline (repair_lines l)) ≡ map (λ r. r.0) l
unfolding read_repairs
read_repairs-repair_lines [] h = unfold or_newline is_empty repair_lines read_ids read_word in refl
read_repairs-repair_lines ((id, n) ∷ l) h =
    let text = repair_lines ((id, n) ∷ l) in
    let nonempty : or_newline text ≡ text =
      unfold repair_lines in or_newline-append id b' ' (to_string n ++ 10 ∷ repair_lines l) in
    ap (λ s. read_ids (suc (length s)) s) nonempty
    ∙ read_ids-repair_lines (suc (length text)) ((id, n) ∷ l)
        (omega (arith, length-repair_lines ((id, n) ∷ l))) h
