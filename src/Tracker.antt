-- ===== src/Tracker.antt =====
-- src/tracker/main.cpp: which peers are alive and which peers have a chunk. A set of locations and the
-- two maps stand in the order in which they are walked. Times are seconds of a clock that does not
-- go back; each request is handled at one time.
pub mod Alive
pub mod Invariant
pub mod Reachable
pub mod Listing
pub mod Locations
pub mod Answers
pub mod Client
use s2_decentralised_storage.Prelude.{
  ℕ, zero, suc, ◌+◌, ◌-◌, Bool, true, false, not, ◌&&◌, ◌||◌, ite, Option, none, some, List, [],
  ◌∷◌, ◌++◌, map, take, Bytes, codes, length, ltb, leb, ◌==◌, if◌then◌else◌, bytes_discrete, lookup,
}
use s2_decentralised_storage.Prelude.Assoc.{assign}
use s2_decentralised_storage.Cpp.Decimal.{to_string, read_number}
use s2_decentralised_storage.Cpp.Int.{ℤ, pos, negsuc, fits_int, signed, to_string_int}
use s2_decentralised_storage.Net.Socket.{Segments, recv_line}
use s2_decentralised_storage.Peer.Service.{extract_word}

pub record PeerInfo : Type 0 where
  pub last_seen : ℕ

abbrev pub Peers : Type 0
Peers = List (Bytes × PeerInfo)

abbrev pub ChunkIndex : Type 0
ChunkIndex = List (Bytes × List Bytes)

pub record Tracker : Type 0 where
  pub peers : Peers
  pub chunk_index : ChunkIndex

abbrev pub ttl : ℕ
ttl = 30

-- `now - last_seen > TTL`, in whole seconds of the steady clock
unfoldable pub is_stale : ℕ → PeerInfo → Bool
is_stale now i = ltb ttl (now - i.last_seen)

-- The entries that a test keeps, as the loops with `erase` leave them.
unfoldable pub filter {ℓ} : {A : Type ℓ} → (A → Bool) → List A → List A
filter p [] = []
filter p (a ∷ l) = let rest = filter p l in if p a then a ∷ rest else rest

unfoldable pub prune_stale : ℕ → Peers → Peers
unfolding filter is_stale
prune_stale now peers = filter (λ kv. not (is_stale now kv.1)) peers

unfoldable pub dead_of : ℕ → Peers → List Bytes
unfolding filter is_stale
dead_of now peers = map (λ kv. kv.0) (filter (λ kv. is_stale now kv.1) peers)

unfoldable pub is_in : Bytes → List Bytes → Bool
is_in b [] = false
is_in b (c ∷ cs) = ite (bytes_discrete b c) true (is_in b cs)

-- The dead peers go from every set of locations.
unfoldable pub without_dead : List Bytes → ChunkIndex → ChunkIndex
unfolding is_in
without_dead dead [] = []
without_dead dead ((id, locs) ∷ index) =
    (id, filter (λ l. not (is_in l dead)) locs) ∷ without_dead dead index

unfoldable pub is_empty {ℓ} : {A : Type ℓ} → List A → Bool
is_empty [] = true
is_empty (a ∷ l) = false

-- The index is walked only if some peer is dead.
unfoldable pub cleaned : List Bytes → ChunkIndex → Peers → Tracker
unfolding without_dead is_empty
cleaned dead index peers =
    if is_empty dead then record { peers = peers; chunk_index = index } else record {
      peers = peers;
      chunk_index = filter (λ kv. not (is_empty kv.1)) (without_dead dead index);
    }

unfoldable pub prune_stale_and_cleanup : ℕ → Tracker → Tracker
unfolding prune_stale dead_of cleaned
prune_stale_and_cleanup now t =
    cleaned (dead_of now t.peers) t.chunk_index (prune_stale now t.peers)

-- `iss >> p` for an `int`: 0 without a number, the nearest value for one that does not fit.
unfoldable pub extract_int : Bytes → ℤ
extract_int s = elim (read_number s) [
  | none ↦ pos 0
  | some (neg, n, rest) ↦
      if fits_int neg n then signed neg n else if neg then negsuc 2147483647 else pos 2147483647
]

-- What the next extraction reads; nothing once one has failed.
unfoldable pub rest_of_int : Bytes → Bytes
rest_of_int s = elim (read_number s) [
  | none ↦ []
  | some (neg, n, rest) ↦ if fits_int neg n then rest else []
]

-- `p > 0 && p <= 65535`
unfoldable pub is_port : ℤ → Bool
is_port (pos n) = ltb 0 n && leb n 65535
is_port (negsuc n) = false

-- `ip:port`
unfoldable pub entry : Bytes → ℤ → Bytes
entry ip p = ip ++ b':' ∷ to_string_int p

-- `chunk_index[id].insert(location)`
unfoldable pub insert_location : Bytes → List Bytes → List Bytes
insert_location loc locs = if is_in loc locs then locs else loc ∷ locs

unfoldable pub locations : Bytes → ChunkIndex → List Bytes
locations id index = elim (lookup bytes_discrete id index) [ none ↦ [] | some locs ↦ locs ]

-- REGISTER and HEARTBEAT differ in the text of the error.
unfoldable pub seen : ℕ → Tracker → Bytes → Bytes → Tracker × Bytes
unfolding is_port entry
seen now t usage args =
    let (ip, rest) = extract_word args in
    let p = extract_int rest in
    if is_empty ip || not (is_port p) then (t, usage) else (
      record t { peers = assign bytes_discrete (entry ip p) (record { last_seen = now }) t.peers },
      codes "OK\n",
    )

-- A peer that is not alive is accepted all the same.
unfoldable pub announce : Tracker → Bytes → Tracker × Bytes
unfolding insert_location locations
announce t args =
    let (id, rest) = extract_word args in
    let (ip, rest2) = extract_word rest in
    let p = extract_int rest2 in
    if is_empty id || (is_empty ip || not (is_port p))
    then (t, codes "ERR invalid ANNOUNCE. Use: ANNOUNCE <chunk_id> <ip> <port>\n")
    else (
      record t {
        chunk_index =
            assign bytes_discrete id (insert_location (entry ip p) (locations id t.chunk_index))
              t.chunk_index;
      },
      codes "OK\n",
    )

unfoldable pub is_alive : ℕ → Peers → Bytes → Bool
is_alive now peers e = elim (lookup bytes_discrete e peers) [
  | none ↦ false
  | some i ↦ leb (now - i.last_seen) ttl
]

unfoldable pub lines : List Bytes → Bytes
lines [] = []
lines (l ∷ ls) = l ++ 10 ∷ lines ls

-- `if (out.empty()) out = "\n";`
unfoldable pub or_newline : Bytes → Bytes
or_newline out = if is_empty out then 10 ∷ [] else out

unfoldable pub where_alive : ℕ → Tracker → Bytes → List Bytes
unfolding is_alive
where_alive now t id = filter (is_alive now t.peers) (locations id t.chunk_index)

unfoldable pub where_chunk : ℕ → Tracker → Bytes → Bytes
unfolding where_alive or_newline lines
where_chunk now t args =
    let (id, _) = extract_word args in
    if is_empty id
    then codes "ERR invalid WHERE. Use: WHERE <chunk_id>\n"
    else or_newline (lines (where_alive now t id))

-- `if (n <= 0) n = d;`
unfoldable pub positive_or : ℕ → ℤ → ℕ
positive_or d (pos n) = if n == 0 then d else n
positive_or d (negsuc n) = d

unfoldable pub alive_count : Peers → List Bytes → ℕ
alive_count peers locs =
    length
      (filter (λ e. elim (lookup bytes_discrete e peers) [ none ↦ false | some i ↦ true ]) locs)

-- The chunks with some replicas but too few, with their number.
unfoldable pub under_replicated : ℕ → Peers → ChunkIndex → List (Bytes × ℕ)
unfolding alive_count
under_replicated desired peers [] = []
under_replicated desired peers ((id, locs) ∷ index) =
    let n = alive_count peers locs in
    let rest = under_replicated desired peers index in
    if ltb 0 n && ltb n desired then (id, n) ∷ rest else rest

unfoldable pub repair_lines : List (Bytes × ℕ) → Bytes
repair_lines [] = []
repair_lines ((id, n) ∷ l) = id ++ b' ' ∷ (to_string n ++ 10 ∷ repair_lines l)

unfoldable pub need_repair : ℕ → Tracker → Bytes → Tracker × Bytes
unfolding prune_stale_and_cleanup positive_or under_replicated repair_lines
need_repair now t args =
    let desired = positive_or 2 (extract_int args) in
    let limit = positive_or 50 (extract_int (rest_of_int args)) in
    let pruned = prune_stale_and_cleanup now t in
    (
      pruned,
      or_newline
          (repair_lines (take limit (under_replicated desired pruned.peers pruned.chunk_index))),
    )

unfoldable pub get_peers : ℕ → Tracker → Tracker × Bytes
unfolding prune_stale_and_cleanup
get_peers now t =
    let cleaned = prune_stale_and_cleanup now t in
    let pruned = record cleaned { peers = prune_stale now cleaned.peers } in
    (pruned, or_newline (lines (map (λ kv. kv.0) pruned.peers)))

unfoldable pub dispatch : ℕ → Tracker → Bytes → Bytes → Tracker × Bytes
unfolding seen announce where_chunk need_repair get_peers
dispatch now t cmd args =
    ite (bytes_discrete cmd (codes "REGISTER"))
      (seen now t (codes "ERR invalid REGISTER. Use: REGISTER <ip> <port>\n") args)
      (ite (bytes_discrete cmd (codes "HEARTBEAT"))
        (seen now t (codes "ERR invalid HEARTBEAT. Use: HEARTBEAT <ip> <port>\n") args)
        (ite (bytes_discrete cmd (codes "ANNOUNCE")) (announce t args) (
          ite (bytes_discrete cmd (codes "WHERE")) (t, where_chunk now t args)
            (ite (bytes_discrete cmd (codes "NEED_REPAIR")) (need_repair now t args) (
              ite (bytes_discrete cmd (codes "GET_PEERS")) (get_peers now t)
                (t, codes "ERR unknown command\n"))))))

-- The body of the loop at the time `now`, for a client that sends `segs`.
unfoldable pub handle_line : ℕ → Tracker → Option (Bytes × Segments) → Tracker × Bytes
unfolding dispatch
handle_line now t none = (t, [])
handle_line now t (some (line, segs)) =
    let (cmd, args) = extract_word line in dispatch now t cmd args

unfoldable pub handle : ℕ → Tracker → Segments → Tracker × Bytes
unfolding handle_line
handle now t segs = handle_line now t (recv_line segs)
