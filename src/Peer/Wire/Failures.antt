-- ===== src/Peer/Wire/Failures.antt =====
-- Requests that fail: a payload that does not come whole, and a size that cannot be allocated.
use s2_decentralised_storage.Prelude.{
  ℕ, ◌≤◌, ◌<◌, ◌≡◌, refl, ap, ◌∙◌, true, false, none, some, List, [], ◌∷◌, ◌++◌, Bytes, codes,
  length, take, take_of_length-le, arith,
}
use s2_decentralised_storage.Cpp.Stream.{is_space, IsWord}
use s2_decentralised_storage.Cpp.Decimal.{u64_mod, to_string}
use s2_decentralised_storage.Net.Socket.{Segments, flatten, recv_payload, IsSteady}
use s2_decentralised_storage.Net.Socket.Segmentation.{recv_payload_lem}
use s2_decentralised_storage.Peer.Service.{
  PeerService, handle, handle_line, with_payload, put_chunk, put_manifest, run_loop, ask_4096,
  extract_word, dispatch,
}
use s2_decentralised_storage.Peer.Line.{recv_line-append, extract_word-append}
use s2_decentralised_storage.Peer.Wire.{put_line, put_line-IsPlain, asks_4096}
use s2_decentralised_storage.Peer.Wire.Replies.{
  put_chunk_name, put_manifest_name, command-IsWord, dispatch-put_chunk, dispatch-put_manifest,
}

-- A put that announces `size` bytes and sends `came`.
pub record IsAnnounced (cmd id came : Bytes) (size : ℕ) (segs : Segments) : Type 0 where
  pub steady : IsSteady segs
  pub sent : flatten segs ≡ put_line cmd id size ++ 10 ∷ came
  pub word : IsWord id
  pub short : length (put_line cmd id size) ≤ 8192
  pub fits : size < u64_mod

put_chunk-IsWord : IsWord put_chunk_name
unfolding is_space
put_chunk-IsWord =
    command-IsWord b'P' (codes "UT_CHUNK")
      (refl, (refl, (refl, (refl, (refl, (refl, (refl, (refl, (refl, tt)))))))))

put_manifest-IsWord : IsWord put_manifest_name
unfolding is_space
put_manifest-IsWord = command-IsWord b'P' (codes "UT_MANIFEST") (
  refl,
  (refl, (refl, (refl, (refl, (refl, (refl, (refl, (refl, (refl, (refl, (refl, tt))))))))))),
)

handle-announced :
    (p : PeerService) (cmd id came : Bytes) (size : ℕ) (segs : Segments)
    → IsAnnounced cmd id came size segs
    → IsWord cmd
    → (left : Segments) × (flatten left ≡ came)
      × IsSteady left
      × (handle p segs ≡ dispatch p cmd (b' ' ∷ (id ++ b' ' ∷ to_string size)) left)
unfolding handle
handle-announced p cmd id came size segs a c =
    let args = id ++ b' ' ∷ to_string size in
    let (left, read, rest, steady) =
      recv_line-append segs (put_line cmd id size) came a.steady a.sent
        (put_line-IsPlain cmd id size c a.word) a.short in
    let word : extract_word (put_line cmd id size) ≡ (cmd, b' ' ∷ args) =
      unfold put_line in extract_word-append cmd args c in
    (left, rest, steady, rw (read, handle_line) (rw (word)))

came_short :
    (came : Bytes) (size : ℕ) (left : Segments)
    → IsSteady left
    → flatten left ≡ came
    → length came < size
    → recv_payload ask_4096 size size left ≡ came
came_short came size left st rest short =
    recv_payload_lem ask_4096 size size left asks_4096 st (omega arith)
    ∙ ap (take size) rest
    ∙ take_of_length-le size came (omega (arith, short))

-- A put of a chunk or of a manifest with a word as its id, a request line of 8192 bytes at most and a
-- size that can be allocated, of whose payload less than the size comes, leaves the service and its
-- disk as they were, and the reply is an error.
pub handle-incomplete :
    (p : PeerService) (id came : Bytes) (size : ℕ) (chunk manifest : Segments)
    → IsAnnounced put_chunk_name id came size chunk
    → IsAnnounced put_manifest_name id came size manifest
    → length came < size
    → p.can_alloc size ≡ true
    → (handle p chunk ≡ some (p, codes "ERR\n")) × (handle p manifest ≡ some (p, codes "ERR\n"))
unfolding with_payload
handle-incomplete p id came size chunk manifest a b short room =
    let (left, rest, st, e) =
      handle-announced p put_chunk_name id came size chunk a put_chunk-IsWord in
    let (left', rest', st', e') =
      handle-announced p put_manifest_name id came size manifest b put_manifest-IsWord in
    (
      e
          ∙ dispatch-put_chunk p id size left a.word a.fits
          ∙ rw (room, with_payload, came_short came size left st rest short)
              (unfold put_chunk in ground arith),
      e'
          ∙ dispatch-put_manifest p id size left' a.word a.fits
          ∙ rw (room, with_payload, came_short came size left' st' rest' short)
              (unfold put_manifest in ground arith),
    )

-- A put of a chunk with a word as its id and a request line of 8192 bytes at most, with a size that
-- the machine cannot allocate, ends a running service, whatever connections follow.
pub run_loop-no_memory :
    (p : PeerService) (id came : Bytes) (size : ℕ) (segs : Segments) (next : List Segments)
    → IsAnnounced put_chunk_name id came size segs
    → p.running ≡ true
    → p.can_alloc size ≡ false
    → run_loop p (segs ∷ next) ≡ (none, [])
unfolding run_loop with_payload
run_loop-no_memory p id came size segs next a on room =
    let (left, rest, st, e) =
      handle-announced p put_chunk_name id came size segs a put_chunk-IsWord in
    let ended : handle p segs ≡ none =
      e ∙ dispatch-put_chunk p id size left a.word a.fits ∙ rw (room, with_payload) in
    simp (on, ended)
