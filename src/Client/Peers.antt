-- ===== src/Client/Peers.antt =====
-- The list of peers that the client programs take: src/client/main.cpp and src/client/dss_worker.cpp read
-- it with the same loop, but differ in what they do with an entry that is no address.
pub mod Agreement
use s2_decentralised_storage.Prelude.{Option, none, some, List, [], ◌∷◌, Bytes, ◌>>=◌}
use s2_decentralised_storage.Cpp.Lines.{split_lines}
use s2_decentralised_storage.Dht.Id.{PeerEndpoint}
use s2_decentralised_storage.Net.Endpoint.{Parsed, parsed, invalid, parse_peer_entry}

-- `cfg.peers.push_back(parse_peer_entry(item))`, where an exception leaves the loop.
unfoldable pub push_all : Parsed → Option (List PeerEndpoint) → Option (List PeerEndpoint)
push_all (invalid message) rest = none
push_all (parsed ep) rest = do eps ← rest; some (ep ∷ eps)

unfoldable pub parse_items : List Bytes → Option (List PeerEndpoint)
unfolding push_all
parse_items [] = some []
parse_items ([] ∷ items) = parse_items items
parse_items ((c ∷ item) ∷ items) = push_all (parse_peer_entry (c ∷ item)) (parse_items items)

-- None if there is no peer.
unfoldable pub nonempty : List PeerEndpoint → Option (List PeerEndpoint)
nonempty [] = none
nonempty (ep ∷ eps) = some (ep ∷ eps)

-- The command line: none is an exception.
unfoldable pub parse_peers : Bytes → Option (List PeerEndpoint)
unfolding parse_items nonempty
parse_peers text = do eps ← parse_items (split_lines b',' text); nonempty eps

-- The same where an exception is caught and the entry is skipped.
unfoldable pub push_valid : Parsed → List PeerEndpoint → List PeerEndpoint
push_valid (invalid message) rest = rest
push_valid (parsed ep) rest = ep ∷ rest

unfoldable pub valid_items : List Bytes → List PeerEndpoint
unfolding push_valid
valid_items [] = []
valid_items ([] ∷ items) = valid_items items
valid_items ((c ∷ item) ∷ items) = push_valid (parse_peer_entry (c ∷ item)) (valid_items items)

-- The worker: none is an exception.
unfoldable pub valid_peers : Bytes → Option (List PeerEndpoint)
unfolding valid_items nonempty
valid_peers text = nonempty (valid_items (split_lines b',' text))
