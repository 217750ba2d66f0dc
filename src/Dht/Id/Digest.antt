-- ===== src/Dht/Id/Digest.antt =====
-- Identifiers are the first 20 bytes of a digest; no text makes `makeKeyId` or `makeNodeId` throw.
use s2_decentralised_storage.Prelude.{
  ◌≤◌, ◌≡◌, refl, ap, some, [], ◌∷◌, ◌++◌, append-nil, Bytes, length, take, length-take,
  take_of_length-le, min, All-take, arith,
}
use s2_decentralised_storage.Cpp.Int.{to_string_int}
use s2_decentralised_storage.Crypto.Hex.{IsByte}
use s2_decentralised_storage.Crypto.Hex
use s2_decentralised_storage.Crypto.Sha256.{Sha256, sha256_hex, sha256_hex_lem}
use s2_decentralised_storage.Dht.Id.{
  KademliaId, id_size, PeerEndpoint, byte_pairs, hex_to_bytes, bytes_to_hex, id_from_bytes,
  make_key_id, make_node_id, to_hex, from_hex,
}
use s2_decentralised_storage.Dht.Id.Metric.{IsId}

byte_pairs-from_pairs : (hex : Bytes) → byte_pairs hex ≡ Hex.from_pairs hex
unfolding byte_pairs Hex.from_pairs
byte_pairs-from_pairs [] = refl
byte_pairs-from_pairs (a ∷ []) = refl
byte_pairs-from_pairs (a ∷ b ∷ hex) = rw (byte_pairs-from_pairs hex)

-- `hexToBytes` and `from_hex` of src/core/crypto are the same function.
pub hex_to_bytes-from_hex : (hex : Bytes) → hex_to_bytes hex ≡ Hex.from_hex hex
unfolding hex_to_bytes Hex.from_hex
hex_to_bytes-from_hex hex = rw (byte_pairs-from_pairs hex)

bytes_to_hex-to_hex : (bytes : Bytes) → bytes_to_hex bytes ≡ Hex.to_hex bytes
unfolding bytes_to_hex Hex.to_hex Hex.high_char Hex.low_char
bytes_to_hex-to_hex [] = refl
bytes_to_hex-to_hex (b ∷ bytes) = rw (bytes_to_hex-to_hex bytes)

id_from_bytes_long :
    (bytes : Bytes) → id_size ≤ length bytes → id_from_bytes bytes ≡ take id_size bytes
unfolding id_from_bytes
id_from_bytes_long bytes h =
    let n : min (length bytes) id_size ≡ id_size = omega arith in
    rw n (append-nil (take id_size bytes))

module _ (sha : Sha256) where
  open sha use {digest, length-digest, digest-All}

  -- The identifier of a key is the start of the key's digest.
  pub make_key_id_lem : (key : Bytes) → make_key_id sha key ≡ some (take id_size (digest key))
  unfolding make_key_id
  make_key_id_lem key =
      rw (hex_to_bytes-from_hex (sha256_hex sha key), (sha256_hex_lem sha key).2)
        (ap some (id_from_bytes_long (digest key) (omega (arith, length-digest key))))

  abbrev pub endpoint_text : PeerEndpoint → Bytes
  endpoint_text p = p.ip ++ b':' ∷ to_string_int p.port

  pub make_node_id_lem :
      (p : PeerEndpoint) → make_node_id sha p ≡ some (take id_size (digest (endpoint_text p)))
  unfolding make_node_id
  make_node_id_lem p =
      let s = endpoint_text p in
      rw (hex_to_bytes-from_hex (sha256_hex sha s), (sha256_hex_lem sha s).2)
        (ap some (id_from_bytes_long (digest s) (omega (arith, length-digest s))))

  -- It has the size and the range of the array.
  pub take-digest-IsId : (text : Bytes) → IsId (take id_size (digest text))
  take-digest-IsId text = record {
    size = omega (arith, length-take id_size (digest text), length-digest text);
    bytes = All-take IsByte id_size (digest text) (digest-All text);
  }

-- An identifier is read back from its hexadecimal text.
pub from_hex-to_hex : (id : KademliaId) → IsId id → from_hex (to_hex id) ≡ some id
unfolding from_hex to_hex
from_hex-to_hex id h =
    rw
      (
        bytes_to_hex-to_hex id,
        hex_to_bytes-from_hex (Hex.to_hex id),
        Hex.from_hex-to_hex id h.bytes,
      )
      (let n : min (length id) id_size ≡ id_size = omega (arith, h.size) in
        rw (n, append-nil) (ap some (take_of_length-le id_size id (omega (arith, h.size)))))
