-- ===== src/Client/CommandLine.antt =====
-- src/client/main.cpp: the program `put`, `get` and `repair`. The arguments are those behind the
-- program's name; the texts that it prints are left out.
use s2_decentralised_storage.Prelude.{
  ℕ, ◌*◌, Bool, ite, Option, none, some, List, [], ◌∷◌, Bytes, codes, bytes_discrete, ◌>>=◌,
}
use s2_decentralised_storage.Cpp.Decimal.{read_u64}
use s2_decentralised_storage.Cpp.Int.{ℤ, pos, stoi}
use s2_decentralised_storage.Crypto.Sha256.{Sha256}
use s2_decentralised_storage.Crypto.Hybrid.{OpenSsl}
use s2_decentralised_storage.Dht.Id.{PeerEndpoint}
use s2_decentralised_storage.Dss.{ClientConfig, Result, ok, throw}
use s2_decentralised_storage.Dss.Transfer.{PutFileResult, put_file, get_file}
use s2_decentralised_storage.FileSystem.{FileSystem}
use s2_decentralised_storage.Peer.Client.{Reply}
use s2_decentralised_storage.Client.Peers.{parse_peers}

abbrev pub default_chunk_size : ℕ
default_chunk_size = 1024 * 1024

-- How the program ends.
pub data Outcome : Type 0 where
  usage failed not_supported : Outcome
  put_done : PutFileResult → Outcome
  got : Bytes → Outcome

unfoldable pub exit_code : Outcome → ℕ
exit_code usage = 1
exit_code failed = 1
exit_code not_supported = 0
exit_code (put_done result) = 0
exit_code (got path) = 0

-- `std::stoul`: none is one of its exceptions. What follows the number is ignored.
unfoldable pub stoul : Bytes → Option ℕ
stoul s = do (n, _) ← read_u64 s; some n

unfoldable pub chunk_size_arg : List Bytes → Option ℕ
unfolding stoul
chunk_size_arg [] = some default_chunk_size
chunk_size_arg (a ∷ args) = stoul a

unfoldable pub replicas_arg : List Bytes → Option ℤ
replicas_arg (a ∷ b ∷ args) = stoi b
replicas_arg _ = some (pos 2)

unfoldable pub public_key_arg : List Bytes → Bytes
public_key_arg (a ∷ b ∷ c ∷ args) = c
public_key_arg _ = []

-- `DECENT_STORE_MANIFEST_DIR`
unfoldable pub manifest_dir : Option Bytes → Bytes
manifest_dir none = []
manifest_dir (some dir) = dir

-- What `put` makes of its peers and of the arguments behind the file.
unfoldable pub put_config : Option Bytes → Bytes → List Bytes → Option ClientConfig
unfolding chunk_size_arg replicas_arg public_key_arg manifest_dir
put_config env peers args = do
  eps ← parse_peers peers
  size ← chunk_size_arg args
  replicas ← replicas_arg args
  some (record {
    peers = eps;
    chunk_size = size;
    desired_replicas = replicas;
    rsa_public_key_path = public_key_arg args;
    rsa_private_key_path = [];
    local_manifest_dir = manifest_dir env;
  })

unfoldable pub private_key_arg : List Bytes → Bytes
private_key_arg [] = []
private_key_arg (a ∷ args) = a

unfoldable pub get_config : Bytes → List Bytes → Option ClientConfig
unfolding private_key_arg
get_config peers args = do
  eps ← parse_peers peers
  some (record {
    peers = eps;
    chunk_size = default_chunk_size;
    desired_replicas = pos 2;
    rsa_public_key_path = [];
    rsa_private_key_path = private_key_arg args;
    local_manifest_dir = [];
  })

unfoldable pub put_outcome : Result PutFileResult → Outcome
put_outcome (ok result) = put_done result
put_outcome (throw e) = failed

unfoldable pub got_outcome : Bytes → Result (Unit {0}) → Outcome
got_outcome path (ok _) = got path
got_outcome path (throw e) = failed

module _ (sha : Sha256) (ssl : OpenSsl) {World : Type 0}
    (call : World → PeerEndpoint → Bytes → World × Reply) (can_alloc : ℕ → Bool) where
  unfoldable pub run_put :
      World → FileSystem → Bytes → Option ClientConfig → World × FileSystem × Outcome
  unfolding put_outcome
  run_put w fs path none = (w, fs, failed)
  run_put w fs path (some cfg) =
      let (w', fs', result) = put_file sha ssl call can_alloc w fs cfg path in
      (w', fs', put_outcome result)

  unfoldable pub run_get :
      World → FileSystem → Bytes → Bytes → Option ClientConfig → World × FileSystem × Outcome
  unfolding got_outcome
  run_get w fs ref out none = (w, fs, failed)
  run_get w fs ref out (some cfg) =
      let (w', fs', result) = get_file sha ssl call can_alloc w fs cfg ref out in
      (w', fs', got_outcome out result)

  unfoldable pub put_main :
      World → FileSystem → Option Bytes → List Bytes → World × FileSystem × Outcome
  unfolding run_put put_config
  put_main w fs env (peers ∷ path ∷ args) = run_put w fs path (put_config env peers args)
  put_main w fs env _ = (w, fs, usage)

  unfoldable pub get_main : World → FileSystem → List Bytes → World × FileSystem × Outcome
  unfolding run_get get_config
  get_main w fs (peers ∷ ref ∷ out ∷ args) = run_get w fs ref out (get_config peers args)
  get_main w fs _ = (w, fs, usage)

  unfoldable pub main :
      World → FileSystem → Option Bytes → List Bytes → World × FileSystem × Outcome
  unfolding put_main get_main
  main w fs env [] = (w, fs, usage)
  main w fs env (mode ∷ args) = ite (bytes_discrete mode (codes "put")) (put_main w fs env args) (
      ite (bytes_discrete mode (codes "get")) (get_main w fs args)
        (ite (bytes_discrete mode (codes "repair")) (w, fs, not_supported) (w, fs, usage)))
