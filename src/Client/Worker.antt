-- ===== src/Client/Worker.antt =====
-- src/client/dss_worker.cpp: the slots of the worker, which run the client for the window and emit one
-- signal. `trimmed` is `QString::trimmed`.
pub mod Agreement
use s2_decentralised_storage.Prelude.{
  ℕ, Bool, Option, none, some, [], ◌∷◌, Bytes, codes, ◌==◌, if◌then◌else◌, ◌>>=◌,
}
use s2_decentralised_storage.Cpp.Int.{ℤ, pos, negsuc}
use s2_decentralised_storage.Crypto.Sha256.{Sha256}
use s2_decentralised_storage.Crypto.Hybrid.{OpenSsl}
use s2_decentralised_storage.Dht.Id.{PeerEndpoint}
use s2_decentralised_storage.Dss.{ClientConfig, Result, ok, throw}
use s2_decentralised_storage.Dss.Transfer.{PutFileResult, put_file, get_file}
use s2_decentralised_storage.FileSystem.{FileSystem}
use s2_decentralised_storage.Peer.Client.{Reply}
use s2_decentralised_storage.Client.Peers.{valid_peers}
use s2_decentralised_storage.Client.CommandLine.{default_chunk_size}

-- The signals at the end of a slot; the text of an error is left out.
pub data Signal : Type 0 where
  put_finished : Bytes → Bytes → Signal
  get_finished : Bytes → Signal
  repair_finished error : Signal

unfoldable pub chunk_size_of : ℕ → ℕ
chunk_size_of n = if n == 0 then default_chunk_size else n

unfoldable pub replicas_of : ℤ → ℤ
replicas_of (pos n) = if n == 0 then pos 2 else pos n
replicas_of (negsuc n) = pos 2

unfoldable pub put_signal : Result PutFileResult → Signal
put_signal (ok r) = put_finished r.share_uri r.local_manifest_path
put_signal (throw e) = error

unfoldable pub get_signal : Bytes → Result (Unit {0}) → Signal
get_signal out (ok _) = get_finished out
get_signal out (throw e) = error

module _ (trimmed : Bytes → Bytes) where
  unfoldable pub put_config : Bytes → Bytes → ℕ → ℤ → Bytes → Option ClientConfig
  unfolding chunk_size_of replicas_of
  put_config peers dir size replicas pem = do
    eps ← valid_peers peers
    some (record {
      peers = eps;
      chunk_size = chunk_size_of size;
      desired_replicas = replicas_of replicas;
      rsa_public_key_path = trimmed pem;
      rsa_private_key_path = [];
      local_manifest_dir = dir;
    })

  unfoldable pub get_config : Bytes → Bytes → Option ClientConfig
  get_config peers pem = do
    eps ← valid_peers peers
    some (record {
      peers = eps;
      chunk_size = default_chunk_size;
      desired_replicas = pos 2;
      rsa_public_key_path = [];
      rsa_private_key_path = trimmed pem;
      local_manifest_dir = [];
    })

  module _ (sha : Sha256) (ssl : OpenSsl) {World : Type 0}
      (call : World → PeerEndpoint → Bytes → World × Reply) (can_alloc : ℕ → Bool) where
    unfoldable pub run_put :
        World → FileSystem → Bytes → Option ClientConfig → World × FileSystem × Signal
    unfolding put_signal
    run_put w fs path none = (w, fs, error)
    run_put w fs path (some cfg) =
        let (w', fs', result) = put_file sha ssl call can_alloc w fs cfg path in
        (w', fs', put_signal result)

    unfoldable pub run_get :
        World → FileSystem → Bytes → Bytes → Option ClientConfig → World × FileSystem × Signal
    unfolding get_signal
    run_get w fs ref out none = (w, fs, error)
    run_get w fs ref out (some cfg) =
        let (w', fs', result) = get_file sha ssl call can_alloc w fs cfg ref out in
        (w', fs', get_signal out result)

    unfoldable pub put_file_slot :
        World → FileSystem → Bytes → Bytes → Bytes → ℕ → ℤ → Bytes → World × FileSystem × Signal
    unfolding run_put put_config
    put_file_slot w fs peers path dir size replicas pem =
        run_put w fs path (put_config peers dir size replicas pem)

    unfoldable pub get_file_slot :
        World → FileSystem → Bytes → Bytes → Bytes → Bytes → World × FileSystem × Signal
    unfolding run_get get_config
    get_file_slot w fs peers ref out pem = run_get w fs ref out (get_config peers pem)

-- The slot throws to itself whatever it is given.
unfoldable pub repair_slot : Bytes → ℤ → ℤ → Signal
repair_slot peers desired batch = error
