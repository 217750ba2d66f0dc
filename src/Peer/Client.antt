-- ===== src/Peer/Client.antt =====
-- src/core/peer/peer_client.cpp: the requests to a peer and how its replies are read.
use s2_decentralised_storage.Prelude.{
  ℕ, Bool, false, ite, Option, none, some, [], ◌∷◌, ◌++◌, Bytes, codes, length, ◌==◌, if◌then◌else◌,
  bytes_discrete,
}
use s2_decentralised_storage.Cpp.Decimal.{to_string}
use s2_decentralised_storage.Net.Socket.{Segments, recv_line, recv_all_text, recv_payload}
use s2_decentralised_storage.Peer.Service.{extract_word, extract_size}
use s2_decentralised_storage.Storage.{strip_prefix, is_found}

pub data Error : Type 0 where
  no_connection send_failed refused no_header not_ok no_memory incomplete : Error

pub data Result {ℓ} (A : Type ℓ) : Type ℓ where
  ok : A → Result A
  throw : Error → Result A

-- What comes of a connection: it cannot be made, the request cannot be sent, or the peer sends
-- segments back.
pub data Reply : Type 0 where
  unreachable : Reply
  broken : Reply
  arrived : Segments → Reply

-- A command with its argument.
unfoldable pub request : Bytes → Bytes → Bytes
request cmd id = cmd ++ b' ' ∷ (id ++ 10 ∷ [])

-- The same with a payload behind its size.
unfoldable pub put_request : Bytes → Bytes → Bytes → Bytes
put_request cmd id payload =
    cmd ++ b' ' ∷ (id ++ b' ' ∷ (to_string (length payload) ++ 10 ∷ payload))

-- `resp.rfind("OK", 0) == 0`
unfoldable pub starts_with_ok : Bytes → Bool
unfolding strip_prefix is_found
starts_with_ok s = is_found (strip_prefix (codes "OK") s)

-- `putChunk` and `putManifest` behind the request.
unfoldable pub read_put : Reply → Result (Unit {0})
read_put unreachable = throw no_connection
read_put broken = throw send_failed
read_put (arrived segs) = if starts_with_ok (recv_all_text segs) then ok tt else throw refused

unfoldable pub ask_all : ℕ → ℕ
ask_all remaining = remaining

-- All of the payload has come, or the call fails.
unfoldable pub complete : ℕ → Bytes → Result Bytes
complete size out = if length out == size then ok out else throw incomplete

unfoldable pub read_header : (ℕ → Bool) → Option (Bytes × Segments) → Result Bytes
unfolding complete
read_header can_alloc none = throw no_header
read_header can_alloc (some (header, segs)) =
    let (status, rest) = extract_word header in
    let size = extract_size rest in
    ite (bytes_discrete status (codes "OK"))
      (if can_alloc size
        then complete size (recv_payload ask_all size size segs)
        else throw no_memory)
      (throw not_ok)

-- `getChunk` and `getManifest` behind the request; `can_alloc` is how large a buffer the machine gives.
unfoldable pub read_get : (ℕ → Bool) → Reply → Result Bytes
unfolding read_header
read_get can_alloc unreachable = throw no_connection
read_get can_alloc broken = throw send_failed
read_get can_alloc (arrived segs) = read_header can_alloc (recv_line segs)

unfoldable pub ok_line : Option (Bytes × Segments) → Bool
ok_line none = false
ok_line (some (line, segs)) = starts_with_ok line

-- `hasChunk` and `hasManifest` behind the request: whatever fails once it is connected means no.
unfoldable pub read_has : Reply → Result Bool
unfolding ok_line
read_has unreachable = throw no_connection
read_has broken = ok false
read_has (arrived segs) = ok (ok_line (recv_line segs))

-- The calls, over a network that carries a request to a peer.
module _ {World Peer : Type 0} (call : World → Peer → Bytes → World × Reply)
    (can_alloc : ℕ → Bool) where
  unfoldable pub put_chunk : World → Peer → Bytes → Bytes → World × Result (Unit {0})
  put_chunk w peer id payload =
      let (w', reply) = call w peer (put_request (codes "PUT_CHUNK") id payload) in
      (w', read_put reply)

  unfoldable pub get_chunk : World → Peer → Bytes → World × Result Bytes
  get_chunk w peer id =
      let (w', reply) = call w peer (request (codes "GET_CHUNK") id) in
      (w', read_get can_alloc reply)

  unfoldable pub has_chunk : World → Peer → Bytes → World × Result Bool
  has_chunk w peer id =
      let (w', reply) = call w peer (request (codes "HAS_CHUNK") id) in (w', read_has reply)

  unfoldable pub put_manifest : World → Peer → Bytes → Bytes → World × Result (Unit {0})
  put_manifest w peer id text =
      let (w', reply) = call w peer (put_request (codes "PUT_MANIFEST") id text) in
      (w', read_put reply)

  unfoldable pub get_manifest : World → Peer → Bytes → World × Result Bytes
  get_manifest w peer id =
      let (w', reply) = call w peer (request (codes "GET_MANIFEST") id) in
      (w', read_get can_alloc reply)

  unfoldable pub has_manifest : World → Peer → Bytes → World × Result Bool
  has_manifest w peer id =
      let (w', reply) = call w peer (request (codes "HAS_MANIFEST") id) in (w', read_has reply)
