-- ===== src/Tracker/Answers.antt =====
-- A peer that said it was there and announced a chunk is in the answers to WHERE.
use s2_decentralised_storage.Prelude.{
  ℕ, ◌+◌, ◌≤◌, ◌≡◌, ◌≢◌, refl, ◌∙◌, Bool, true, false, if_pos, some, List, [], ◌∷◌, ◌++◌,
  append-nil, Bytes, codes, bytes_discrete, lookup, arith, Bool-cases, Option-cases, inl, inr, All,
}
use s2_decentralised_storage.Prelude.Assoc.{assign, lookup-assign}
use s2_decentralised_storage.Cpp.Stream.{is_space, IsWord}
use s2_decentralised_storage.Cpp.Decimal.{to_string, read_number-to_string, read_number-space}
use s2_decentralised_storage.Cpp.Int.{ℤ, pos, negsuc, to_string_int, fits_int, signed}
use s2_decentralised_storage.Peer.Service.{extract_word}
use s2_decentralised_storage.Peer.Line.{extract_word-append, extract_word-space}
use s2_decentralised_storage.Tracker.{
  PeerInfo, Peers, ChunkIndex, Tracker, filter, is_in, is_empty, locations, insert_location,
  is_alive, where_alive, seen, announce, entry, is_port, extract_int,
}

keeps_in :
    (p : Bytes → Bool) (e a : Bytes) (l : List Bytes)
    → e ≢ a
    → is_in e (filter p l) ≡ true
    → is_in e (filter p (a ∷ l)) ≡ true
unfolding is_in filter
keeps_in p e a l ne h = ground arith

is_in-filter :
    (p : Bytes → Bool) (e : Bytes) (l : List Bytes)
    → is_in e l ≡ true
    → p e ≡ true
    → is_in e (filter p l) ≡ true
unfolding is_in filter
is_in-filter p e [] h k = h
is_in-filter p e (a ∷ l) h k = elim (bytes_discrete e a) [
  | yes q ↦ rw (rw (q) at k, filter) (if_pos (bytes_discrete e a) q _ _)
  | no ne ↦ keeps_in p e a l ne (is_in-filter p e l (ground (arith, h)) k)
]

is_in-insert_location : (e : Bytes) (l : List Bytes) → is_in e (insert_location e l) ≡ true
unfolding insert_location is_in
is_in-insert_location e l = ground arith

-- The locations of a chunk after an announcement of it.
locations-assign :
    (id : Bytes) (locs : List Bytes) (index : ChunkIndex)
    → locations id (assign bytes_discrete id locs index) ≡ locs
unfolding locations
locations-assign id locs index =
    rw (lookup-assign bytes_discrete id id locs index, locations)
      (rw (if_pos (bytes_discrete id id) refl (some locs) (lookup bytes_discrete id index)))

extract_port : (p : ℤ) → is_port p ≡ true → extract_int (b' ' ∷ to_string_int p) ≡ p
unfolding extract_int is_port to_string_int fits_int signed
extract_port (negsuc n) h = absurd (ground arith)
extract_port (pos n) h =
    let e = read_number-to_string n [] tt in
    rw
      (
        read_number-space b' ' (to_string n) (unfold is_space in refl),
        extract_int,
        rw append-nil at e,
      )
      (ground arith)

pub word_not_empty : (w : Bytes) → IsWord w → is_empty w ≡ false
unfolding is_empty
word_not_empty [] g = absurd (g.nonempty refl)
word_not_empty (c ∷ w) g = refl

next_word :
    (w rest : Bytes) → IsWord w → extract_word (b' ' ∷ (w ++ b' ' ∷ rest)) ≡ (w, b' ' ∷ rest)
next_word w rest g = extract_word-space (w ++ b' ' ∷ rest) ∙ extract_word-append w rest g

-- The arguments of a peer's address.
abbrev pub address : Bytes → ℤ → Bytes
address ip p = b' ' ∷ (ip ++ b' ' ∷ to_string_int p)

seen_lem :
    (now : ℕ) (t : Tracker) (usage ip : Bytes) (p : ℤ)
    → IsWord ip
    → is_port p ≡ true
    → seen now t usage (address ip p) ≡ (
      record t { peers = assign bytes_discrete (entry ip p) (record { last_seen = now }) t.peers },
      codes "OK\n",
    )
unfolding seen
seen_lem now t usage ip p g h =
    rw (next_word ip (to_string_int p) g, seen, extract_port p h, word_not_empty ip g, h)

announce_lem :
    (t : Tracker) (id ip : Bytes) (p : ℤ)
    → IsWord id
    → IsWord ip
    → is_port p ≡ true
    → announce t (b' ' ∷ (id ++ address ip p)) ≡ (
      record t {
        chunk_index =
            assign bytes_discrete id
              (insert_location (entry ip p) (locations id t.chunk_index))
              t.chunk_index;
      },
      codes "OK\n",
    )
unfolding announce
announce_lem t id ip p i g h =
    rw (next_word id (ip ++ b' ' ∷ to_string_int p) i, announce)
      (rw (next_word ip (to_string_int p) g)
        (rw (extract_port p h, word_not_empty id i, word_not_empty ip g, h)))

-- A peer with a word for its address and a valid port that registered or sent a heartbeat at a time
-- `seen_at`, and that then announces a chunk under a word, is in the answer to WHERE for that chunk
-- until 30 seconds have passed.
pub where_alive-announce :
    (seen_at now : ℕ) (t : Tracker) (usage id ip : Bytes) (p : ℤ)
    → IsWord id
    → IsWord ip
    → is_port p ≡ true
    → now ≤ seen_at + 30
    → is_in (entry ip p) (
        where_alive now
          (announce (seen seen_at t usage (address ip p)).0 (b' ' ∷ (id ++ address ip p))).0
          id)
      ≡ true
unfolding where_alive
where_alive-announce seen_at now t usage id ip p i g h soon =
    let t1 = record t {
      peers = assign bytes_discrete (entry ip p) (record { last_seen = seen_at }) t.peers;
    } in
    let locs = insert_location (entry ip p) (locations id t.chunk_index) in
    let alive : is_alive now t1.peers (entry ip p) ≡ true =
      rw
        (
          is_alive,
          lookup-assign bytes_discrete (entry ip p) (entry ip p) (record { last_seen = seen_at })
              t.peers,
          if_pos (bytes_discrete (entry ip p) (entry ip p)) refl
              (some (record { last_seen = seen_at })) (lookup bytes_discrete (entry ip p) t.peers),
        )
        (ground arith) in
    rw (seen_lem seen_at t usage ip p g h, announce_lem t1 id ip p i g h)
      (rw (locations-assign id locs t.chunk_index) (
        is_in-filter (is_alive now t1.peers) (entry ip p) locs
          (is_in-insert_location (entry ip p) (locations id t.chunk_index)) alive))

alive_info :
    (now : ℕ) (peers : Peers) (e : Bytes)
    → is_alive now peers e ≡ true
    → (i : PeerInfo) × (lookup bytes_discrete e peers ≡ some i) × (now ≤ i.last_seen + 30)
unfolding is_alive
alive_info now peers e h = elim (Option-cases (lookup bytes_discrete e peers)) [
  | inl n ↦ absurd (ground (arith, n, h))
  | inr (i, s) ↦ (i, s, ground (arith, s, h))
]

all_alive :
    (now : ℕ) (peers : Peers) (l : List Bytes)
    → All
        (λ e. (i : PeerInfo) × (lookup bytes_discrete e peers ≡ some i) × (now ≤ i.last_seen + 30))
        (filter (is_alive now peers) l)
unfolding filter
all_alive now peers [] = tt
all_alive now peers (e ∷ l) = elim (Bool-cases (is_alive now peers e)) [
  | inl h ↦ rw (h, filter) (alive_info now peers e h, all_alive now peers l)
  | inr h ↦ rw (h, filter) (all_alive now peers l)
]

-- Every peer in an answer to WHERE is known and was seen in the last 30 seconds.
pub where_alive_lem :
    (now : ℕ) (t : Tracker) (id : Bytes)
    → All
        (λ e.
          (i : PeerInfo) × (lookup bytes_discrete e t.peers ≡ some i) × (now ≤ i.last_seen + 30))
        (where_alive now t id)
unfolding where_alive
where_alive_lem now t id = all_alive now t.peers (locations id t.chunk_index)
