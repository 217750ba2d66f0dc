-- ===== src/Peer/Service.antt =====
-- src/core/peer/peer_service.cpp: one connection, from the request line to the reply. The storage
-- manager and the manifests lie on one disk. What `send` accepts is up to the network, and the
-- service does not look at it, so a reply is the bytes that are handed to it.
use s2_decentralised_storage.Prelude.{
  ℕ, ◌-◌, ◌%◌, Bool, ite, Option, none, some, List, [], ◌∷◌, ◌++◌, Bytes, codes, length, ltb, ◌==◌,
  if◌then◌else◌, bytes_discrete, min,
}
use s2_decentralised_storage.Cpp.Stream.{read_word}
use s2_decentralised_storage.Cpp.Decimal.{u64_mod, to_string, read_number}
use s2_decentralised_storage.FileSystem.{FileSystem, read_file, write_file}
use s2_decentralised_storage.Storage as Storage
use s2_decentralised_storage.Storage.{StorageManager, store_chunk, load_chunk, has_chunk}
use s2_decentralised_storage.Net.Socket.{Segments, recv_line, recv_payload}

-- `running_`, the storage of `runLoop`, and how large a buffer the machine gives.
pub record PeerService : Type 0 where
  pub running : Bool
  pub storage : StorageManager
  pub can_alloc : ℕ → Bool

-- `iss >> word` on a stream that may have failed: the word stays empty then.
unfoldable pub word_or_empty : Option (Bytes × Bytes) → Bytes × Bytes
word_or_empty none = ([], [])
word_or_empty (some p) = p

unfoldable pub extract_word : Bytes → Bytes × Bytes
unfolding word_or_empty
extract_word s = word_or_empty (read_word s)

-- `iss >> size`: 0 without a number, the largest value for one that is too large.
unfoldable pub extract_size : Bytes → ℕ
extract_size s = elim (read_number s) [
  | none ↦ 0
  | some (neg, n, rest) ↦
      if ltb n u64_mod then if neg then (u64_mod - n) % u64_mod else n else u64_mod - 1
]

unfoldable pub ask_4096 : ℕ → ℕ
ask_4096 remaining = min remaining 4096

unfoldable pub manifest_path : StorageManager → Bytes → Bytes
manifest_path s id = s.base_dir ++ codes "/manifests/" ++ id

-- The service after a request and its reply; none if an exception leaves `runLoop`.
abbrev pub Outcome : Type 0
Outcome = Option (PeerService × Bytes)

unfoldable pub stored :
    PeerService → StorageManager × Storage.Result (Unit {0}) → PeerService × Bytes
stored p (s, Storage.ok _) = (record p { storage = s }, codes "OK\n")
stored p (s, Storage.throw _) = (record p { storage = s }, codes "ERR\n")

-- The payload is complete if it has `size` bytes.
unfoldable pub put_chunk : PeerService → Bytes → ℕ → Bytes → PeerService × Bytes
unfolding stored
put_chunk p hash size payload =
    if length payload == size
    then stored p (store_chunk p.storage hash payload)
    else (p, codes "ERR\n")

unfoldable pub wrote : PeerService → Option FileSystem → PeerService × Bytes
wrote p none = (p, codes "ERR\n")
wrote p (some fs) = (record p { storage = record p.storage { disk = fs } }, codes "OK\n")

unfoldable pub put_manifest : PeerService → Bytes → ℕ → Bytes → PeerService × Bytes
unfolding wrote
put_manifest p id size payload =
    if length payload == size
    then wrote p (write_file p.storage.disk (manifest_path p.storage id) payload)
    else (p, codes "ERR\n")

-- `std::vector<char> data(size)` comes first, and throws where there is no room.
unfoldable pub with_payload :
    PeerService
    → (PeerService → Bytes → ℕ → Bytes → PeerService × Bytes)
    → Bytes
    → ℕ
    → Segments
    → Outcome
with_payload p put id size segs =
    if p.can_alloc size then some (put p id size (recv_payload ask_4096 size size segs)) else none

unfoldable pub size_line : Bytes → Bytes
size_line payload = codes "OK " ++ (to_string (length payload) ++ 10 ∷ payload)

unfoldable pub loaded : PeerService → StorageManager × Storage.Result Bytes → PeerService × Bytes
loaded p (s, Storage.ok payload) = (record p { storage = s }, size_line payload)
loaded p (s, Storage.throw _) = (record p { storage = s }, codes "ERR\n")

unfoldable pub get_chunk : PeerService → Bytes → PeerService × Bytes
unfolding loaded
get_chunk p hash = loaded p (load_chunk p.storage hash)

unfoldable pub reply_of : Bool → Bytes
reply_of b = if b then codes "OK\n" else codes "ERR\n"

unfoldable pub manifest_reply : Option Bytes → Bytes
manifest_reply none = codes "ERR\n"
manifest_reply (some text) = size_line text

unfoldable pub get_manifest : PeerService → Bytes → PeerService × Bytes
unfolding manifest_reply
get_manifest p id = (p, manifest_reply (read_file p.storage.disk (manifest_path p.storage id)))

unfoldable pub has_manifest : PeerService → Bytes → Bool
has_manifest p id = Storage.is_found (read_file p.storage.disk (manifest_path p.storage id))

-- The chain of commands; an unknown one gets no reply.
unfoldable pub dispatch : PeerService → Bytes → Bytes → Segments → Outcome
unfolding get_chunk get_manifest has_manifest with_payload
dispatch p cmd args segs =
    let (id, rest) = extract_word args in
    let size = extract_size rest in
    ite (bytes_discrete cmd (codes "PUT_CHUNK")) (with_payload p put_chunk id size segs) (
      ite (bytes_discrete cmd (codes "GET_CHUNK")) (some (get_chunk p id)) (
        ite (bytes_discrete cmd (codes "HAS_CHUNK")) (some (p, reply_of (has_chunk p.storage id))) (
          ite (bytes_discrete cmd (codes "PUT_MANIFEST")) (with_payload p put_manifest id size segs)
            (ite (bytes_discrete cmd (codes "GET_MANIFEST")) (some (get_manifest p id)) (
              ite (bytes_discrete cmd (codes "HAS_MANIFEST"))
                (some (p, reply_of (has_manifest p id))) (some (p, [])))))))

unfoldable pub handle_line : PeerService → Option (Bytes × Segments) → Outcome
unfolding dispatch
handle_line p none = some (p, [])
handle_line p (some (line, segs)) = let (cmd, args) = extract_word line in dispatch p cmd args segs

-- The body of the loop, once `accept` has returned a client that sends `segs`.
unfoldable pub handle : PeerService → Segments → Outcome
unfolding handle_line
handle p segs = handle_line p (recv_line segs)

-- The loop over the connections that come, while the service runs; the replies in order, and none
-- for the service when an exception has ended it.
unfoldable pub run_loop : PeerService → List Segments → Option PeerService × List Bytes
run_loop p [] = (some p, [])
run_loop p (c ∷ cs) =
    if p.running
    then elim (handle p c) [
      | none ↦ (none, [])
      | some (p', reply) ↦ let (end, replies) = run_loop p' cs in (end, reply ∷ replies)
    ]
    else (some p, [])
