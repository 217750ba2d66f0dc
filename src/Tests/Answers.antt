-- ===== src/Tests/Answers.antt =====
-- The client of the tracker, against the tracker.
use s2_decentralised_storage.Prelude.{
  ◌≡◌, refl, [], ◌∷◌, ◌++◌, map, Bytes, codes, arith, bytes_discrete, lookup, All,
}
use s2_decentralised_storage.Cpp.Stream.{is_space, read_word}
use s2_decentralised_storage.Cpp.Decimal.{to_string, print_loop, read_number}
use s2_decentralised_storage.Cpp.Int.{fits_int, signed, pos, to_string_int}
use s2_decentralised_storage.Dht.Id.{PeerEndpoint}
use s2_decentralised_storage.Net.Socket.{Segments, flatten, recv, recv_line, recv_line_loop}
use s2_decentralised_storage.Peer.Client.{Reply, arrived}
use s2_decentralised_storage.Peer.Service.{extract_word}
use s2_decentralised_storage.Tracker.{
  lines, or_newline, Tracker, where_alive, handle, get_peers, is_in, is_alive,
  prune_stale_and_cleanup, under_replicated, entry, locations, filter, extract_int, rest_of_int,
  positive_or,
}
use s2_decentralised_storage.Tracker.Client as Client
use s2_decentralised_storage.Tracker.Client.Answers.{IsEndpoint, IsRepair, print}
use s2_decentralised_storage.Tracker.Client.Requests.{to_repair}
use s2_decentralised_storage.Tracker.Client.EndToEnd.{
  Carries, where_chunk-handle, get_peers-handle, need_repair-handle,
}
use s2_decentralised_storage.Tracker.Invariant.{IsValid, NoDup}
use s2_decentralised_storage.Tracker.Reachable.{start, served, Reachable-IsValid}
use s2_decentralised_storage.Tracker.Listing.{get_peers_lem}
use s2_decentralised_storage.Tests.Disk.{c3, c3-IsWord}
use s2_decentralised_storage.Tests.Registry.{tracker, peers-Distinct}

abbrev p1 : PeerEndpoint
p1 = record { ip = codes "p"; port = pos 1 }

p1-IsEndpoint : IsEndpoint p1
unfolding is_space
p1-IsEndpoint = (
  record {
    word = record { nonempty = λ e. cc; graph = (refl, tt) };
    plain = ((λ e. omega (arith, e)), tt);
  },
  omega arith,
)

-- A network that always brings the same answer.
abbrev answering : Segments → Unit {0} → Bytes → Unit {0} × Reply
answering segs w line = (tt, arrived segs)

-- The request and the answer in two segments.
abbrev where_sent : Segments
where_sent = codes "WHERE c" ∷ codes "3\n" ∷ []

abbrev where_answer : Segments
where_answer = codes "p:1" ∷ codes "\n" ∷ []

where_handled : handle 100 tracker where_sent ≡ (tracker, flatten where_answer)
unfolding handle flatten recv_line recv_line_loop recv bytes_discrete extract_word read_word lookup
where_handled = refl

where_carried : Carries (answering where_answer) 100 tracker tracker tt tt (codes "WHERE " ++ c3)
unfolding flatten
where_carried = record {
  sent = where_sent;
  answer = where_answer;
  sent_whole = refl;
  sent_steady = ((λ e. cc), ((λ e. cc), tt));
  handled = where_handled;
  answer_steady = ((λ e. cc), ((λ e. cc), tt));
  carried = refl;
}

alive_p1 : where_alive 100 tracker c3 ≡ map print (p1 ∷ [])
unfolding where_alive entry filter locations lookup bytes_discrete to_string_int to_string
    print_loop
alive_p1 = refl

where_chunk-handle_example :
    Client.where_chunk (answering where_answer) tt c3 ≡ (tt, Client.ok (p1 ∷ []))
where_chunk-handle_example =
    where_chunk-handle (answering where_answer) 100 tracker tracker tt tt c3 (p1 ∷ []) where_carried
      c3-IsWord (omega arith) alive_p1 (p1-IsEndpoint, tt)

-- The tracker without the stale peer.
abbrev pruned : Tracker
pruned = record {
  peers = (codes "p:1", record { last_seen = 90 }) ∷ [];
  chunk_index = (c3, codes "p:1" ∷ []) ∷ [];
}

abbrev peers_sent : Segments
peers_sent = codes "GET_PEERS\n" ∷ []

peers_handled : handle 100 tracker peers_sent ≡ (pruned, flatten where_answer)
unfolding handle flatten recv_line recv_line_loop recv bytes_discrete extract_word read_word lookup
peers_handled = refl

peers_carried : Carries (answering where_answer) 100 tracker pruned tt tt (codes "GET_PEERS")
unfolding flatten
peers_carried = record {
  sent = peers_sent;
  answer = where_answer;
  sent_whole = refl;
  sent_steady = ((λ e. cc), tt);
  handled = peers_handled;
  answer_steady = ((λ e. cc), ((λ e. cc), tt));
  carried = refl;
}

known_p1 : map (λ kv. kv.0) pruned.peers ≡ map print (p1 ∷ [])
unfolding entry to_string_int to_string print_loop
known_p1 = refl

get_peers-handle_example : Client.get_peers (answering where_answer) tt ≡ (tt, Client.ok (p1 ∷ []))
get_peers-handle_example =
    get_peers-handle (answering where_answer) 100 tracker pruned tt tt (p1 ∷ []) peers_carried
      known_p1 (p1-IsEndpoint, tt)

abbrev repair_sent : Segments
repair_sent = codes "NEED_REPAIR 2 5\n" ∷ []

abbrev repair_answer : Segments
repair_answer = codes "c3 1\n" ∷ []

repair_handled : handle 100 tracker repair_sent ≡ (pruned, flatten repair_answer)
unfolding handle flatten recv_line recv_line_loop recv bytes_discrete extract_word read_word lookup
    extract_int rest_of_int positive_or read_number fits_int signed to_string print_loop
repair_handled = refl

repair_carried :
    Carries
      (answering repair_answer)
      100
      tracker
      pruned
      tt
      tt
      (codes "NEED_REPAIR " ++ (to_string 2 ++ b' ' ∷ to_string 5))
unfolding flatten to_string print_loop
repair_carried = record {
  sent = repair_sent;
  answer = repair_answer;
  sent_whole = refl;
  sent_steady = ((λ e. cc), tt);
  handled = repair_handled;
  answer_steady = ((λ e. cc), tt);
  carried = refl;
}

repair_c3 : to_repair 100 tracker 2 5 ≡ (c3, 1) ∷ []
unfolding prune_stale_and_cleanup under_replicated filter lookup bytes_discrete
repair_c3 = refl

to_repair-IsRepair : All IsRepair (to_repair 100 tracker 2 5)
to_repair-IsRepair = rw repair_c3 ((c3-IsWord, omega arith), tt)

need_repair-handle_example :
    Client.need_repair (answering repair_answer) tt (pos 2) (pos 5)
    ≡ (tt, Client.ok (map (λ r. r.0) (to_repair 100 tracker 2 5)))
need_repair-handle_example =
    need_repair-handle (answering repair_answer) 100 tracker pruned tt tt 2 5 repair_carried
      (omega arith) (omega arith) (omega arith) (omega arith) to_repair-IsRepair

get_peers_lem_example :
    (let names = map (λ kv. kv.0) (get_peers 100 tracker).0.peers in
      ((get_peers 100 tracker).1 ≡ or_newline (lines names))
      × NoDup names
      × ((e : Bytes) → is_in e names ≡ is_alive 100 tracker.peers e))
get_peers_lem_example = get_peers_lem 100 tracker peers-Distinct

Reachable-IsValid_example :
    IsValid (handle 5 (record { peers = []; chunk_index = [] }) peers_sent).0
Reachable-IsValid_example = Reachable-IsValid (served 5 peers_sent start)
