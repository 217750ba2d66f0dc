-- ===== src/Tests/Download.antt =====
-- A download from one peer that answers every request with the same chunk.
use s2_decentralised_storage.Prelude.{
  ℕ, ◌+◌, ◌≡◌, ◌≢◌, refl, Bool, true, none, some, List, [], ◌∷◌, map, Bytes, codes, bytes_discrete,
}
use s2_decentralised_storage.Cpp.Int.{pos}
use s2_decentralised_storage.Crypto.Sha256.{sha256_hex, print_hash, hex_out, pad_two}
use s2_decentralised_storage.Dht.Id.{PeerEndpoint}
use s2_decentralised_storage.Dht.Node as Node
use s2_decentralised_storage.Dht.Node.{DhtNode, at_least_one}
use s2_decentralised_storage.Manifest.{ManifestEntry}
use s2_decentralised_storage.Peer.Client as Client
use s2_decentralised_storage.Peer.Client.{Reply, arrived}
use s2_decentralised_storage.Net.Socket.{flatten, recv_line, recv_line_loop, recv, recv_payload}
use s2_decentralised_storage.Peer.Service.{extract_word, extract_size}
use s2_decentralised_storage.Cpp.Stream.{read_word}
use s2_decentralised_storage.Cpp.Decimal.{read_number}
use s2_decentralised_storage.Dss.{
  ClientConfig, ok, ensure, get_chunks, candidates_for, find_chunk, accept_chunk, check_chunk,
  open_chunk, with_all_peers,
}
use s2_decentralised_storage.Dss.Integrity.{get_chunks_lem, find_chunk_total}
use s2_decentralised_storage.Tests.Keys.{toy_sha, toy_digest, toy_ssl}

abbrev pub peer : PeerEndpoint
peer = record { ip = codes "10.0.0.1"; port = pos 9000 }

abbrev other : PeerEndpoint
other = record { ip = codes "10.0.0.2"; port = pos 9000 }

abbrev pub cfg : ClientConfig
cfg = record {
  peers = peer ∷ [];
  chunk_size = 3;
  desired_replicas = pos 1;
  rsa_public_key_path = [];
  rsa_private_key_path = [];
  local_manifest_dir = [];
}

abbrev pub dht : DhtNode
dht = record { self_id = []; table = record { self_id = []; nodes = [] } }

-- The number of requests is the state of the network.
abbrev pub call : ℕ → PeerEndpoint → Bytes → ℕ × Reply
call n p request = (n + 1, arrived (codes "OK 3\nabc" ∷ []))

abbrev pub any_size : ℕ → Bool
any_size n = true

abbrev entries : List ManifestEntry
entries = record { chunk_id = sha256_hex toy_sha (codes "abc") } ∷ []

downloaded : (get_chunks toy_sha toy_ssl call any_size 0 dht cfg none 0 entries).2 ≡ ok tt
unfolding get_chunks candidates_for ensure Node.find_value Node.store with_all_peers find_chunk
    Client.get_chunk Client.read_get accept_chunk check_chunk open_chunk recv_line recv_line_loop
    recv flatten bytes_discrete extract_word read_word recv_payload extract_size read_number
    Client.ask_all sha256_hex print_hash toy_digest pad_two hex_out
downloaded = refl

get_chunks_lem_example :
    (plains : List Bytes) × ((get_chunks toy_sha toy_ssl call any_size 0 dht cfg none 0 entries).1
      ≡ flatten plains)
    × (map (sha256_hex toy_sha) plains ≡ map (λ e. e.chunk_id) entries)
get_chunks_lem_example =
    get_chunks_lem toy_sha toy_ssl call any_size 0 dht cfg none 0 entries downloaded

abbrev chunk_id : Bytes
chunk_id = sha256_hex toy_sha (codes "abc")

good_reply :
    (v : ℕ)
    → accept_chunk toy_sha toy_ssl call any_size none 0 chunk_id
        (Client.get_chunk call any_size v peer chunk_id).1
      ≡ some (codes "abc")
unfolding Client.get_chunk Client.read_get accept_chunk check_chunk open_chunk recv_line
    recv_line_loop recv flatten bytes_discrete extract_word read_word recv_payload extract_size
    read_number Client.ask_all sha256_hex print_hash toy_digest pad_two hex_out
good_reply v = refl

good_peer :
    (v : ℕ)
    → accept_chunk toy_sha toy_ssl call any_size none 0 chunk_id
        (Client.get_chunk call any_size v peer chunk_id).1
      ≢ none
good_peer v e = cc (good_reply v, e)

find_chunk_total_example :
    (plain : Bytes) × ((find_chunk toy_sha toy_ssl call any_size 0 none 0
        (other ∷ peer ∷ [])
        chunk_id).1
      ≡ some plain)
    × (sha256_hex toy_sha plain ≡ chunk_id)
find_chunk_total_example =
    find_chunk_total toy_sha toy_ssl call any_size 0 none 0 (other ∷ []) [] peer chunk_id good_peer
