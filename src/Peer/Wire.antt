-- ===== src/Peer/Wire.antt =====
-- What the service does with the client's requests, and what the client makes of its replies,
-- however the network cuts them.
pub mod Replies
pub mod RoundTrip
pub mod Failures
use s2_decentralised_storage.Prelude.{
  ℕ, zero, suc, ◌+◌, ◌-◌, ◌≤◌, ◌<◌, ◌≡◌, ◌≢◌, refl, subst, ap, sym, ◌∙◌, Bool, true, false, Option,
  none, some, List, [], ◌∷◌, ◌++◌, append_assoc, append-nil, Bytes, codes, length, All, All-append,
  All-mono, take, take_of_length-le, ltb, ◌==◌, if◌then◌else◌, arith, ◌^◌,
}
use s2_decentralised_storage.Cpp.Stream.{is_space, IsGraph, IsWord}
use s2_decentralised_storage.Cpp.Decimal.{u64_mod, to_string, to_string-IsWord}
use s2_decentralised_storage.Net.Socket.{Segments, flatten, recv_line, recv_payload, IsSteady}
use s2_decentralised_storage.Net.Socket.Segmentation.{IsAsk, recv_payload_lem}
use s2_decentralised_storage.Peer.Service.{
  PeerService, Outcome, extract_word, extract_size, ask_4096, handle, handle_line, dispatch,
  with_payload,
}
use s2_decentralised_storage.Peer.Client.{request, put_request}
use s2_decentralised_storage.Peer.Line.{
  IsPlain, IsPlain-of_IsGraph, recv_line-append, extract_word_end, extract_word-append,
  extract_word-space, extract_size-to_string,
}

-- The request lines.
unfoldable pub line : Bytes → Bytes → Bytes
line cmd id = cmd ++ b' ' ∷ id

unfoldable pub put_line : Bytes → Bytes → ℕ → Bytes
put_line cmd id size = cmd ++ b' ' ∷ (id ++ b' ' ∷ to_string size)

IsPlain-word : (w : Bytes) → IsWord w → All IsPlain w
IsPlain-word w g = All-mono IsGraph IsPlain w IsPlain-of_IsGraph g.graph

IsPlain-space : IsPlain b' '
IsPlain-space = (λ e. omega arith, λ e. omega arith)

line-IsPlain : (cmd id : Bytes) → IsWord cmd → IsWord id → All IsPlain (line cmd id)
unfolding line
line-IsPlain cmd id c i =
    All-append IsPlain cmd (b' ' ∷ id) (IsPlain-word cmd c) (IsPlain-space, IsPlain-word id i)

put_line-IsPlain :
    (cmd id : Bytes) (size : ℕ) → IsWord cmd → IsWord id → All IsPlain (put_line cmd id size)
unfolding put_line
put_line-IsPlain cmd id size c i =
    All-append IsPlain cmd (b' ' ∷ (id ++ b' ' ∷ to_string size)) (IsPlain-word cmd c) (
      IsPlain-space,
      All-append IsPlain id (b' ' ∷ to_string size) (IsPlain-word id i)
          (IsPlain-space, IsPlain-word (to_string size) (to_string-IsWord size)),
    )

request-line : (cmd id : Bytes) → request cmd id ≡ line cmd id ++ 10 ∷ []
unfolding request line
request-line cmd id = sym (append_assoc cmd (b' ' ∷ id) (10 ∷ []))

put_request-line :
    (cmd id payload : Bytes)
    → put_request cmd id payload ≡ put_line cmd id (length payload) ++ 10 ∷ payload
unfolding put_request put_line
put_request-line cmd id payload =
    ap (λ t. cmd ++ b' ' ∷ t)
      (sym (append_assoc id (b' ' ∷ to_string (length payload)) (10 ∷ payload)))
    ∙ sym (append_assoc cmd (b' ' ∷ (id ++ b' ' ∷ to_string (length payload))) (10 ∷ payload))

-- A request without payload reaches its command with its argument.
pub handle-request :
    (p : PeerService) (segs : Segments) (cmd id : Bytes)
    → IsSteady segs
    → flatten segs ≡ request cmd id
    → IsWord cmd
    → IsWord id
    → length (line cmd id) ≤ 8192
    → (left : Segments) × (flatten left ≡ []) × (handle p segs ≡ dispatch p cmd (b' ' ∷ id) left)
unfolding handle
handle-request p segs cmd id st e c i fits =
    let (left, read, rest, _) =
      recv_line-append segs (line cmd id) [] st (e ∙ request-line cmd id) (line-IsPlain cmd id c i)
        fits in
    let word : extract_word (line cmd id) ≡ (cmd, b' ' ∷ id) =
      unfold line in extract_word-append cmd id c in
    (left, rest, rw (read, handle_line) (rw (word)))

-- A request with a payload reaches its command with its arguments and the payload.
pub handle-put_request :
    (p : PeerService) (segs : Segments) (cmd id payload : Bytes)
    → IsSteady segs
    → flatten segs ≡ put_request cmd id payload
    → IsWord cmd
    → IsWord id
    → length (put_line cmd id (length payload)) ≤ 8192
    → (left : Segments) × (flatten left ≡ payload)
      × IsSteady left
      × (handle p segs ≡ dispatch p cmd (b' ' ∷ (id ++ b' ' ∷ to_string (length payload))) left)
unfolding handle
handle-put_request p segs cmd id payload st e c i fits =
    let args = id ++ b' ' ∷ to_string (length payload) in
    let (left, read, rest, steady) =
      recv_line-append segs (put_line cmd id (length payload)) payload st
        (e ∙ put_request-line cmd id payload) (put_line-IsPlain cmd id (length payload) c i) fits in
    let word : extract_word (put_line cmd id (length payload)) ≡ (cmd, b' ' ∷ args) =
      unfold put_line in extract_word-append cmd args c in
    (left, rest, steady, rw (read, handle_line) (rw (word)))

pub asks_4096 : IsAsk ask_4096
unfolding ask_4096
asks_4096 r = (omega arith, omega arith)

-- The service has the whole payload before it stores it.
pub with_payload_lem :
    (p : PeerService) (put : PeerService → Bytes → ℕ → Bytes → PeerService × Bytes)
    (id payload : Bytes) (left : Segments)
    → p.can_alloc (length payload) ≡ true
    → IsSteady left
    → flatten left ≡ payload
    → with_payload p put id (length payload) left ≡ some (put p id (length payload) payload)
unfolding with_payload
with_payload_lem p put id payload left room st e =
    let n = length payload in
    let read : recv_payload ask_4096 n n left ≡ payload =
      recv_payload_lem ask_4096 n n left asks_4096 st (omega arith)
      ∙ ap (take n) e
      ∙ take_of_length-le n payload (omega arith) in
    rw (room, with_payload, read)
