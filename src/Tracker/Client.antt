-- ===== src/Tracker/Client.antt =====
-- src/core/tracker/tracker_client.cpp: the requests to a tracker and how its answers are read.
pub mod Answers
pub mod Requests
pub mod EndToEnd
use s2_decentralised_storage.Prelude.{
  ℕ, zero, suc, Bool, true, false, Option, none, some, List, [], ◌∷◌, ◌++◌, Bytes, codes, length,
  ◌==◌, if◌then◌else◌,
}
use s2_decentralised_storage.Cpp.Int.{ℤ, stoi, read_int, to_string_int}
use s2_decentralised_storage.Cpp.Lines.{split_lines}
use s2_decentralised_storage.Cpp.Stream.{read_word}
use s2_decentralised_storage.Dht.Id.{PeerEndpoint}
use s2_decentralised_storage.Net.Socket.{Segments, recv_all_text}
use s2_decentralised_storage.Peer.Client.{Reply, unreachable, broken, arrived}
use s2_decentralised_storage.Peer.Service.{extract_word}

pub data Error : Type 0 where
  no_connection send_failed bad_port : Error

pub data Result {ℓ} (A : Type ℓ) : Type ℓ where
  ok : A → Result A
  throw : Error → Result A

infixl 5 ◌>>=◌
abbrev pub ◌>>=◌ {ℓ κ} : {A : Type ℓ} {B : Type κ} → Result A → (A → Result B) → Result B
ok a >>= f = f a
throw e >>= f = throw e

-- A line end behind the text, if there is none.
unfoldable pub with_newline : Bytes → Bytes
with_newline [] = 10 ∷ []
with_newline (c ∷ []) = if c == 10 then c ∷ [] else c ∷ 10 ∷ []
with_newline (c ∷ d ∷ s) = c ∷ with_newline (d ∷ s)

-- `requestLine` behind the request.
unfoldable pub read_reply : Reply → Result Bytes
read_reply unreachable = throw no_connection
read_reply broken = throw send_failed
read_reply (arrived segs) = ok (recv_all_text segs)

-- `find(':')`: what stands before and behind the first colon.
unfoldable pub split_first : Bytes → Option (Bytes × Bytes)
split_first [] = none
split_first (c ∷ s) = elim (c == b':') [
  | true ↦ some ([], s)
  | false ↦ elim (split_first s) [ none ↦ none | some (h, t) ↦ some (c ∷ h, t) ]
]

-- The address before a port; the exception of `std::stoi` is not caught.
unfoldable pub with_port : Bytes → Option ℤ → Result (Option PeerEndpoint)
with_port host none = throw bad_port
with_port host (some p) = ok (some (record { ip = host; port = p }))

unfoldable pub read_split : Option (Bytes × Bytes) → Result (Option PeerEndpoint)
unfolding with_port
read_split none = ok none
read_split (some (host, port)) = with_port host (stoi port)

-- A line of `whereChunk`; none for one that is skipped.
unfoldable pub read_location : Bytes → Result (Option PeerEndpoint)
unfolding read_split
read_location [] = ok none
read_location (c ∷ l) = read_split (split_first (c ∷ l))

-- A line of `getPeers`: its first word.
unfoldable pub read_peer : Bytes → Result (Option PeerEndpoint)
unfolding read_location
read_peer l = read_location (extract_word l).0

unfoldable pub keep {ℓ} : {A : Type ℓ} → Option A → List A → List A
keep none out = out
keep (some a) out = a ∷ out

unfoldable pub read_lines :
    (Bytes → Result (Option PeerEndpoint)) → List Bytes → Result (List PeerEndpoint)
unfolding keep
read_lines read [] = ok []
read_lines read (l ∷ ls) = do ep ← read l; rest ← read_lines read ls; ok (keep ep rest)

unfoldable pub read_peers : Bytes → Result (List PeerEndpoint)
unfolding read_lines
read_peers resp = read_lines read_peer (split_lines 10 resp)

unfoldable pub read_where : Bytes → Result (List PeerEndpoint)
unfolding read_lines
read_where resp = read_lines read_location (split_lines 10 resp)

-- `while (iss >> cid >> count)`. Fuel: a round reads a byte at least.
unfoldable pub read_ids : ℕ → Bytes → List Bytes
read_ids zero s = []
read_ids (suc f) s = elim (read_word s) [
  | none ↦ []
  | some (id, rest) ↦ elim (read_int rest) [ none ↦ [] | some (count, left) ↦ id ∷ read_ids f left ]
]

unfoldable pub read_repairs : Bytes → List Bytes
unfolding read_ids
read_repairs resp = read_ids (suc (length resp)) resp

unfoldable pub where_request : Bytes → Bytes
where_request id = codes "WHERE " ++ (id ++ 10 ∷ [])

unfoldable pub announce_request : Bytes → Bytes → ℤ → Bytes
announce_request id ip p =
    codes "ANNOUNCE " ++ (id ++ b' ' ∷ (ip ++ b' ' ∷ (to_string_int p ++ 10 ∷ [])))

unfoldable pub repair_request : ℤ → ℤ → Bytes
repair_request desired limit =
    codes "NEED_REPAIR " ++ (to_string_int desired ++ b' ' ∷ (to_string_int limit ++ 10 ∷ []))

-- The calls, over a network that carries a request to the tracker.
module _ {World : Type 0} (call : World → Bytes → World × Reply) where
  unfoldable pub request_line : World → Bytes → World × Result Bytes
  unfolding with_newline read_reply
  request_line w line = let (w', reply) = call w (with_newline line) in (w', read_reply reply)

  unfoldable pub get_peers : World → World × Result (List PeerEndpoint)
  unfolding request_line
  get_peers w =
      let (w', resp) = request_line w (codes "GET_PEERS\n") in (w', do text ← resp; read_peers text)

  unfoldable pub where_chunk : World → Bytes → World × Result (List PeerEndpoint)
  unfolding request_line
  where_chunk w id =
      let (w', resp) = request_line w (where_request id) in (w', do text ← resp; read_where text)

  -- Whatever fails is ignored.
  unfoldable pub announce_chunk : World → Bytes → Bytes → ℤ → World
  unfolding request_line
  announce_chunk w id ip p = (request_line w (announce_request id ip p)).0

  unfoldable pub need_repair : World → ℤ → ℤ → World × Result (List Bytes)
  unfolding request_line
  need_repair w desired limit =
      let (w', resp) = request_line w (repair_request desired limit) in
      (w', do text ← resp; ok (read_repairs text))
