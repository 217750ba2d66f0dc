-- ===== src/Peer/Main.antt =====
-- src/peer/main.cpp: the program that runs a service, and `runLoop` as a whole. The arguments are those
-- behind the program's name; what it prints is left out.
use s2_decentralised_storage.Prelude.{
  ℕ, ◌*◌, Bool, true, Option, none, some, List, [], ◌∷◌, Bytes, if◌then◌else◌, ◌>>=◌,
}
use s2_decentralised_storage.Cpp.Decimal.{read_u64}
use s2_decentralised_storage.Cpp.Int.{ℤ, stoi}
use s2_decentralised_storage.FileSystem.{FileSystem}
use s2_decentralised_storage.Net.Socket.{Segments}
use s2_decentralised_storage.Storage as Storage
use s2_decentralised_storage.Peer.Service.{PeerService, run_loop}
use s2_decentralised_storage.Peer.Lifecycle as Lifecycle
use s2_decentralised_storage.Peer.Lifecycle.{Server, System, set_up}

-- The parameters of the constructor.
pub record Settings : Type 0 where
  pub advertise_ip : Bytes
  pub peer_port : ℤ
  pub storage_dir : Bytes
  pub max_bytes : ℕ

abbrev pub default_max_bytes : ℕ
default_max_bytes = 10 * 1024 * 1024 * 1024

-- `std::stoull`: none is one of its exceptions.
unfoldable pub max_bytes_arg : List Bytes → Option ℕ
max_bytes_arg [] = some default_max_bytes
max_bytes_arg (a ∷ args) = do (n, _) ← read_u64 a; some n

unfoldable pub read_settings : Bytes → Bytes → Bytes → List Bytes → Option Settings
unfolding max_bytes_arg
read_settings ip port dir args = do
  p ← stoi port
  max ← max_bytes_arg args
  some (record { advertise_ip = ip; peer_port = p; storage_dir = dir; max_bytes = max })

-- How the program ends: by its exit code, or by an exception that nothing catches.
pub data Ending : Type 0 where
  usage : Ending
  uncaught : List Bytes → Ending
  returned : PeerService → List Bytes → Ending

-- What the loop did, with its replies.
unfoldable pub ending_of : Option PeerService × List Bytes → Ending
ending_of (none, replies) = uncaught replies
ending_of (some p, replies) = returned p replies

-- `runLoop` on the blocking thread; `conns` are the connections that come.
unfoldable pub run_blocking : (ℕ → Bool) → System → FileSystem → Settings → List Segments → Ending
unfolding ending_of
run_blocking can_alloc sys fs c conns =
    let service : PeerService = record {
      running = true;
      storage = Storage.init (Storage.create c.storage_dir c.max_bytes fs);
      can_alloc = can_alloc;
    } in
    let server : Server = record Lifecycle.create { running = true } in
    if (set_up sys server).1 then ending_of (run_loop service conns) else uncaught []

unfoldable pub run_settings :
    (ℕ → Bool) → System → FileSystem → Option Settings → List Segments → Ending
unfolding run_blocking
run_settings can_alloc sys fs none conns = uncaught []
run_settings can_alloc sys fs (some c) conns = run_blocking can_alloc sys fs c conns

unfoldable pub main : (ℕ → Bool) → System → FileSystem → List Bytes → List Segments → Ending
unfolding run_settings read_settings
main can_alloc sys fs (ip ∷ port ∷ dir ∷ args) conns =
    run_settings can_alloc sys fs (read_settings ip port dir args) conns
main can_alloc sys fs _ conns = usage
