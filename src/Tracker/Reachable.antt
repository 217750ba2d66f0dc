-- ===== src/Tracker/Reachable.antt =====
-- Every request keeps a tracker well-formed.
use s2_decentralised_storage.Prelude.{
  ℕ, Bool, true, false, ite, if_pos, if_neg, [], Bytes, codes, bytes_discrete, if◌then◌else◌,
  Option-cases, inl, inr,
}
use s2_decentralised_storage.Prelude.Assoc.{assign-Distinct}
use s2_decentralised_storage.Net.Socket.{Segments, recv_line}
use s2_decentralised_storage.Peer.Service.{extract_word}
use s2_decentralised_storage.Tracker.{
  Tracker, prune_stale, prune_stale_and_cleanup, insert_location, locations, entry, extract_int,
  seen, announce, need_repair, get_peers, dispatch, handle_line, handle,
}
use s2_decentralised_storage.Tracker.Invariant.{
  IsValid, prune-IsValid, locations-NoDup, insert_location-IsLocated, assign-IsLocated,
  filter-Distinct,
}

-- A test keeps what both of its branches keep.
if-IsValid :
    (b : Bool) (r q : Tracker × Bytes) → IsValid r.0 → IsValid q.0 → IsValid (if b then r else q).0
if-IsValid true r q v w = v
if-IsValid false r q v w = w

ite-IsValid :
    (s k : Bytes) (r q : Tracker × Bytes)
    → IsValid r.0
    → IsValid q.0
    → IsValid (ite (bytes_discrete s k) r q).0
ite-IsValid s k r q v w = elim (bytes_discrete s k) [
  | yes p ↦ rw (if_pos (bytes_discrete s k) p r q) v
  | no p ↦ rw (if_neg (bytes_discrete s k) p r q) w
]

seen-IsValid :
    (now : ℕ) (t : Tracker) (usage args : Bytes) → IsValid t → IsValid (seen now t usage args).0
unfolding seen
seen-IsValid now t usage args v = if-IsValid _ _ _ v (record {
  peers_once = assign-Distinct bytes_discrete _ (record { last_seen = now }) t.peers v.peers_once;
  chunks_once = v.chunks_once;
  located = v.located;
})

announce-IsValid : (t : Tracker) (args : Bytes) → IsValid t → IsValid (announce t args).0
unfolding announce
announce-IsValid t args v =
    let (id, rest) = extract_word args in
    let (ip, rest2) = extract_word rest in
    let loc = entry ip (extract_int rest2) in
    let locs = insert_location loc (locations id t.chunk_index) in
    if-IsValid _ _ _ v (record {
      peers_once = v.peers_once;
      chunks_once = assign-Distinct bytes_discrete id locs t.chunk_index v.chunks_once;
      located =
          assign-IsLocated id locs t.chunk_index
            (insert_location-IsLocated id loc (locations id t.chunk_index)
              (locations-NoDup id t.chunk_index v.located))
            v.located;
    })

need_repair-IsValid :
    (now : ℕ) (t : Tracker) (args : Bytes) → IsValid t → IsValid (need_repair now t args).0
unfolding need_repair
need_repair-IsValid now t args v = prune-IsValid now t v

get_peers-IsValid : (now : ℕ) (t : Tracker) → IsValid t → IsValid (get_peers now t).0
unfolding get_peers prune_stale
get_peers-IsValid now t v =
    let w = prune-IsValid now t v in
    record {
      peers_once = filter-Distinct _ (prune_stale_and_cleanup now t).peers w.peers_once;
      chunks_once = w.chunks_once;
      located = w.located;
    }

dispatch-IsValid :
    (now : ℕ) (t : Tracker) (cmd args : Bytes) → IsValid t → IsValid (dispatch now t cmd args).0
unfolding dispatch
dispatch-IsValid now t cmd args v =
    ite-IsValid cmd (codes "REGISTER") _ _ (seen-IsValid now t _ args v) (
      ite-IsValid cmd (codes "HEARTBEAT") _ _ (seen-IsValid now t _ args v) (
        ite-IsValid cmd (codes "ANNOUNCE") _ _ (announce-IsValid t args v) (
          ite-IsValid cmd (codes "WHERE") _ _ v (
            ite-IsValid cmd (codes "NEED_REPAIR") _ _ (need_repair-IsValid now t args v)
              (ite-IsValid cmd (codes "GET_PEERS") _ _ (get_peers-IsValid now t v) v)))))

-- Whatever a client sends, and whenever, the tracker stays well-formed.
handle-IsValid :
    (now : ℕ) (t : Tracker) (segs : Segments) → IsValid t → IsValid (handle now t segs).0
unfolding handle handle_line
handle-IsValid now t segs v = elim (Option-cases (recv_line segs)) [
  | inl e ↦ rw (e, handle_line) v
  | inr ((line, left), e) ↦
      rw (e, handle_line) (dispatch-IsValid now t (extract_word line).0 (extract_word line).1 v)
]

-- What a tracker can become, from its start on.
pub data Reachable : Tracker → Type 0 where
  start : Reachable (record { peers = []; chunk_index = [] })
  served : (now : ℕ) (segs : Segments) {t : Tracker} → Reachable t → Reachable (handle now t segs).0

-- In every state that a tracker can reach, whatever its clients send and whenever, no peer and no
-- chunk stands twice, and every chunk in the index has a location and none of them twice.
pub Reachable-IsValid : {t : Tracker} → Reachable t → IsValid t
Reachable-IsValid start = record { peers_once = tt; chunks_once = tt; located = tt }
Reachable-IsValid (served now segs {t} r) = handle-IsValid now t segs (Reachable-IsValid r)
