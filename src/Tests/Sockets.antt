-- ===== src/Tests/Sockets.antt =====
-- Segments, requests and replies of a peer.
use s2_decentralised_storage.Prelude.{
  ℕ, ◌≡◌, refl, true, none, some, [], ◌∷◌, Bytes, codes, take, arith, ltb,
}
use s2_decentralised_storage.Cpp.Decimal.{to_string, print_loop}
use s2_decentralised_storage.Storage.{store_chunk}
use s2_decentralised_storage.Net.Socket.{Segments, flatten, recv_line, recv_payload, IsSteady}
use s2_decentralised_storage.Net.Socket.Segmentation.{
  SameRead, line_of, recv_line_lem, recv_payload_lem,
}
use s2_decentralised_storage.Peer.Service.{PeerService, handle, run_loop, ask_4096}
use s2_decentralised_storage.Peer.Wire.{put_line, asks_4096}
use s2_decentralised_storage.Peer.Wire.Replies.{put_chunk_name, put_manifest_name}
use s2_decentralised_storage.Peer.Wire.Failures.{IsAnnounced, handle-incomplete, run_loop-no_memory}
use s2_decentralised_storage.Tests.Disk.{manager, c3, c3-IsWord}

abbrev segments : Segments
segments = codes "HAS" ∷ codes " c3\r\nab" ∷ codes "cd" ∷ []

segments-IsSteady : IsSteady segments
segments-IsSteady = ((λ e. cc), ((λ e. cc), ((λ e. cc), tt)))

recv_line_lem_example : SameRead (recv_line segments) (line_of [] (flatten segments))
recv_line_lem_example = recv_line_lem segments segments-IsSteady

recv_payload_lem_example : recv_payload ask_4096 5 5 segments ≡ take 5 (flatten segments)
recv_payload_lem_example =
    recv_payload_lem ask_4096 5 5 segments asks_4096 segments-IsSteady (omega arith)

-- A machine that gives a kilobyte at most.
abbrev service : PeerService
service = record { running = true; storage = manager; can_alloc = λ n. ltb n 1024 }

one_segment : (c : ℕ) (s : Bytes) → IsSteady ((c ∷ s) ∷ [])
one_segment c s = ((λ e. cc), tt)

abbrev put_c3 : Segments
put_c3 = codes "PUT_CHUNK c3 4\nwxyz" ∷ []

abbrev get_c3 : Segments
get_c3 = codes "GET_CHUNK c3\n" ∷ []

abbrev after : PeerService
after = record service { storage = (store_chunk manager c3 (codes "wxyz")).0 }

abbrev back : Segments
back = codes "OK 4\nwxyz" ∷ []

abbrev short_chunk : Segments
short_chunk = codes "PUT_CHUNK c3 9\nwxyz" ∷ []

abbrev short_manifest : Segments
short_manifest = codes "PUT_MANIFEST c3 9\nwxyz" ∷ []

short_chunk-IsAnnounced : IsAnnounced put_chunk_name c3 (codes "wxyz") 9 short_chunk
unfolding flatten put_line to_string print_loop
short_chunk-IsAnnounced = record {
  steady = one_segment _ _;
  sent = refl;
  word = c3-IsWord;
  short = omega arith;
  fits = omega arith;
}

short_manifest-IsAnnounced : IsAnnounced put_manifest_name c3 (codes "wxyz") 9 short_manifest
unfolding flatten put_line to_string print_loop
short_manifest-IsAnnounced = record {
  steady = one_segment _ _;
  sent = refl;
  word = c3-IsWord;
  short = omega arith;
  fits = omega arith;
}

handle-incomplete_example :
    (handle service short_chunk ≡ some (service, codes "ERR\n"))
    × (handle service short_manifest ≡ some (service, codes "ERR\n"))
handle-incomplete_example =
    handle-incomplete service c3 (codes "wxyz") 9 short_chunk short_manifest short_chunk-IsAnnounced
      short_manifest-IsAnnounced (omega arith) refl

abbrev huge_chunk : Segments
huge_chunk = codes "PUT_CHUNK c3 2000\n" ∷ []

huge_chunk-IsAnnounced : IsAnnounced put_chunk_name c3 [] 2000 huge_chunk
unfolding flatten put_line to_string print_loop
huge_chunk-IsAnnounced = record {
  steady = one_segment _ _;
  sent = refl;
  word = c3-IsWord;
  short = omega arith;
  fits = omega arith;
}

run_loop-no_memory_example : run_loop service (huge_chunk ∷ get_c3 ∷ []) ≡ (none, [])
run_loop-no_memory_example =
    run_loop-no_memory service c3 [] 2000 huge_chunk (get_c3 ∷ []) huge_chunk-IsAnnounced refl refl
