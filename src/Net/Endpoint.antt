-- ===== src/Net/Endpoint.antt =====
-- src/core/net/peer_endpoint_parse.cpp: a peer's address as a user writes it.
pub mod RoundTrip
use s2_decentralised_storage.Prelude.{
  ℕ, ◌+◌, Bool, true, false, ◌&&◌, ◌||◌, Option, none, some, [], ◌∷◌, ◌++◌, Bytes, codes, leb, ◌==◌,
  if◌then◌else◌,
}
use s2_decentralised_storage.Cpp.Int.{stoi}
use s2_decentralised_storage.Dht.Id.{PeerEndpoint}

-- The address, or the text of the exception.
pub data Parsed : Type 0 where
  parsed : PeerEndpoint → Parsed
  invalid : Bytes → Parsed

-- One of `" \t\r\n"`.
unfoldable pub is_blank : ℕ → Bool
is_blank c = c == b' ' || (c == 9 || (c == 13 || c == 10))

unfoldable pub trim_front : Bytes → Bytes
unfolding is_blank
trim_front [] = []
trim_front (c ∷ s) = if is_blank c then trim_front s else c ∷ s

-- The character in front of what is left of the text behind it.
unfoldable pub keep_back : ℕ → Bytes → Bytes
unfolding is_blank
keep_back c [] = if is_blank c then [] else c ∷ []
keep_back c (d ∷ s) = c ∷ d ∷ s

unfoldable pub trim_back : Bytes → Bytes
unfolding keep_back
trim_back [] = []
trim_back (c ∷ s) = keep_back c (trim_back s)

unfoldable pub trim_ws : Bytes → Bytes
unfolding trim_front trim_back
trim_ws s = trim_back (trim_front s)

-- `std::tolower` in the C locale
unfoldable pub to_lower : ℕ → ℕ
to_lower c = if leb b'A' c && leb c b'Z' then c + 32 else c

-- What follows `tcp://`, in any case.
unfoldable pub after_tcp : Bytes → Option Bytes
unfolding to_lower
after_tcp (t ∷ c ∷ p ∷ x ∷ y ∷ z ∷ s) =
    if to_lower t == b't'
      && (to_lower c == b'c' && (to_lower p == b'p' && (x == b':' && (y == b'/' && z == b'/'))))
    then some s
    else none
after_tcp _ = none

unfoldable pub without_tcp : Bytes → Bytes
unfolding after_tcp trim_ws
without_tcp item = elim (after_tcp item) [ none ↦ item | some s ↦ trim_ws s ]

-- `rfind(':')`: what stands before and behind the last colon.
unfoldable pub split_cons : ℕ → Bytes → Option (Bytes × Bytes) → Option (Bytes × Bytes)
split_cons c s (some (h, t)) = some (c ∷ h, t)
split_cons c s none = if c == b':' then some ([], s) else none

unfoldable pub split_last : Bytes → Option (Bytes × Bytes)
unfolding split_cons
split_last [] = none
split_last (c ∷ s) = split_cons c s (split_last s)

unfoldable pub read_port : Bytes → Bytes → Parsed
read_port host port = elim (stoi port) [
  | none ↦ invalid (codes "Invalid peer entry (bad port): " ++ port)
  | some p ↦ parsed (record { ip = host; port = p })
]

-- The host and the port, trimmed.
unfoldable pub read_parts : Bytes → Bytes → Bytes → Parsed
unfolding read_port
read_parts item [] port = invalid (codes "Invalid peer entry (empty host or port): " ++ item)
read_parts item (h ∷ host) [] = invalid (codes "Invalid peer entry (empty host or port): " ++ item)
read_parts item (h ∷ host) (c ∷ port) = read_port (h ∷ host) (c ∷ port)

-- No colon, or nothing before the last one.
unfoldable pub read_split : Bytes → Option (Bytes × Bytes) → Parsed
unfolding read_parts trim_ws
read_split item (some (h ∷ host, port)) = read_parts item (trim_ws (h ∷ host)) (trim_ws port)
read_split item _ =
    invalid (codes "Invalid peer entry (expected host:port or tcp://host:port): " ++ item)

unfoldable pub read_item : Bytes → Parsed
unfolding read_split split_last
read_item item = read_split item (split_last item)

unfoldable pub parse_peer_entry : Bytes → Parsed
unfolding read_item without_tcp trim_ws
parse_peer_entry item = read_item (without_tcp (trim_ws item))
