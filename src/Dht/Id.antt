-- ===== src/Dht/Id.antt =====
-- src/core/common/peer_endpoint.h, src/core/dht/kademlia_id.h and .cpp.
pub mod Metric
pub mod Digest
use Prim.Native.Nat.{bit_xor}
use s2_decentralised_storage.Prelude.{
  ℕ, zero, suc, ◌+◌, ◌-◌, ◌*◌, ◌/◌, ◌%◌, ◌^◌, ◌≤◌, ◌<◌, ◌≡◌, ◌≢◌, refl, ap, sym, ◌∙◌, Bool, true,
  false, Option, none, some, List, [], ◌∷◌, ◌++◌, Bytes, codes, length, take, replicate, min, ltb,
  ◌==◌, if◌then◌else◌, arith, ◌>>=◌,
}
use s2_decentralised_storage.Cpp.Int.{ℤ, to_string_int, stoi}
use s2_decentralised_storage.Cpp.Hexadecimal.{stoi_hex, to_u8}
use s2_decentralised_storage.Crypto.Hex.{char_at, k_hex}
use s2_decentralised_storage.Crypto.Sha256.{Sha256, sha256_hex}

pub record PeerEndpoint : Type 0 where
  pub ip : Bytes
  pub port : ℤ

-- `std::array<std::uint8_t, 20>`; see `IsId` for its length and range.
abbrev pub KademliaId : Type 0
KademliaId = Bytes

abbrev pub id_size : ℕ
id_size = 20

-- The loop of `hexToBytes`.
unfoldable pub byte_pairs : Bytes → Option Bytes
byte_pairs (a ∷ b ∷ hex) = do
  value ← stoi_hex (a ∷ b ∷ [])
  out ← byte_pairs hex
  some (to_u8 value ∷ out)
byte_pairs _ = some []

-- A text of odd length gives no bytes; none is the exception of `std::stoi`.
unfoldable pub hex_to_bytes : Bytes → Option Bytes
hex_to_bytes hex = if length hex % 2 == 0 then byte_pairs hex else some []

unfoldable pub bytes_to_hex : Bytes → Bytes
bytes_to_hex [] = []
bytes_to_hex (b ∷ data_bytes) =
    char_at k_hex (b / 16 % 16) ∷ char_at k_hex (b % 16) ∷ bytes_to_hex data_bytes

-- Cut to 20 bytes, or filled up with zeros.
unfoldable pub id_from_bytes : Bytes → KademliaId
id_from_bytes bytes =
    let n = min (length bytes) id_size in take n bytes ++ replicate (id_size - n) 0

module _ (sha : Sha256) where
  -- `makeKeyId`
  unfoldable pub make_key_id : Bytes → Option KademliaId
  make_key_id key = do bytes ← hex_to_bytes (sha256_hex sha key); some (id_from_bytes bytes)

  -- `makeNodeId`: of the text `ip:port`
  unfoldable pub make_node_id : PeerEndpoint → Option KademliaId
  make_node_id peer = do
    let s = peer.ip ++ b':' ∷ to_string_int peer.port
    bytes ← hex_to_bytes (sha256_hex sha s)
    some (id_from_bytes bytes)

-- The loop of `xorDistance`, over both arrays at once.
unfoldable pub xor_distance : KademliaId → KademliaId → KademliaId
xor_distance (x ∷ a) (y ∷ b) = bit_xor x y ∷ xor_distance a b
xor_distance _ _ = []

-- `operator<` of `std::array`: lexicographic.
unfoldable pub lex_lt : Bytes → Bytes → Bool
lex_lt (x ∷ a) (y ∷ b) =
    let rest = lex_lt a b in if ltb x y then true else if ltb y x then false else rest
lex_lt [] (y ∷ b) = true
lex_lt _ [] = false

-- Whether `a` is closer to `target` than `b`.
unfoldable pub closer_to : KademliaId → KademliaId → KademliaId → Bool
closer_to a b target = lex_lt (xor_distance a target) (xor_distance b target)

unfoldable pub to_hex : KademliaId → Bytes
to_hex id = bytes_to_hex id

unfoldable pub from_hex : Bytes → Option KademliaId
from_hex hex = do
  bytes ← hex_to_bytes hex
  let n = min (length bytes) id_size
  some (take n bytes ++ replicate (id_size - n) 0)
