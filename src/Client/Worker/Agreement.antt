-- ===== src/Client/Worker/Agreement.antt =====
-- The worker does what the command line does with the same settings.
use s2_decentralised_storage.Prelude.{
  ℕ, ◌<◌, ◌^◌, ◌≡◌, refl, ap, sym, ◌∙◌, if_pos, Option, none, some, List, Bool, [], ◌∷◌, append-nil,
  Bytes, codes, arith, bytes_discrete,
}
use s2_decentralised_storage.Cpp.Decimal.{u64_mod, to_string, read_u64, read_u64-to_string}
use s2_decentralised_storage.Cpp.Int.{pos, to_string_int, stoi-to_string_int}
use s2_decentralised_storage.Crypto.Sha256.{Sha256}
use s2_decentralised_storage.Crypto.Hybrid.{OpenSsl}
use s2_decentralised_storage.Dht.Id.{PeerEndpoint}
use s2_decentralised_storage.Dss.{ClientConfig, Result, ok, throw}
use s2_decentralised_storage.Dss.Transfer.{PutFileResult, put_file, get_file}
use s2_decentralised_storage.FileSystem.{FileSystem}
use s2_decentralised_storage.Peer.Client.{Reply}
use s2_decentralised_storage.Peer.Wire.Replies.{skip_first}
use s2_decentralised_storage.Client.Peers.{parse_peers}
use s2_decentralised_storage.Client.Peers.Agreement.{valid_peers-parse_peers}
use s2_decentralised_storage.Client.CommandLine as CommandLine
use s2_decentralised_storage.Client.CommandLine.{
  default_chunk_size, Outcome, usage, failed, not_supported, put_done, got, stoul, main, put_main,
  get_main,
}
use s2_decentralised_storage.Client.Worker as Worker
use s2_decentralised_storage.Client.Worker.{
  Signal, put_finished, get_finished, error, put_file_slot, get_file_slot,
}

-- How the window is told what the program prints.
abbrev pub signal_of : Outcome → Signal
signal_of (put_done r) = put_finished r.share_uri r.local_manifest_path
signal_of (got path) = get_finished path
signal_of usage = error
signal_of failed = error
signal_of not_supported = error

-- The same with the network and the files.
abbrev pub told {ℓ} : {World : Type ℓ} → World × FileSystem × Outcome → World × FileSystem × Signal
told (w, fs, o) = (w, fs, signal_of o)

put_signal_lem :
    (r : Result PutFileResult) → Worker.put_signal r ≡ signal_of (CommandLine.put_outcome r)
unfolding Worker.put_signal CommandLine.put_outcome
put_signal_lem (ok r) = refl
put_signal_lem (throw e) = refl

get_signal_lem :
    (out : Bytes) (r : Result (Unit {0}))
    → Worker.get_signal out r ≡ signal_of (CommandLine.got_outcome out r)
unfolding Worker.get_signal CommandLine.got_outcome
get_signal_lem out (ok r) = refl
get_signal_lem out (throw e) = refl

module _ (trimmed : Bytes → Bytes) where
  put_config_lem :
      (peers dir key : Bytes) (eps : List PeerEndpoint) (n r : ℕ)
      → parse_peers peers ≡ some eps
      → 0 < n
      → n < u64_mod
      → 0 < r
      → r < 2 ^ 31
      → trimmed key ≡ key
      → Worker.put_config trimmed peers dir n (pos r) key
        ≡ CommandLine.put_config (some dir) peers (to_string n ∷ to_string_int (pos r) ∷ key ∷ [])
  unfolding Worker.put_config CommandLine.put_config
  put_config_lem peers dir key eps n r e p fn q fr t =
      let size : read_u64 (to_string n) ≡ some (n, []) =
        rw append-nil at (read_u64-to_string n [] fn tt) in
      rw (valid_peers-parse_peers peers eps e, e, size, stoi-to_string_int (pos r) fr, t)
        (ground (arith, p, q))

  get_config_lem :
      (peers key : Bytes) (eps : List PeerEndpoint)
      → parse_peers peers ≡ some eps
      → trimmed key ≡ key
      → Worker.get_config trimmed peers key ≡ CommandLine.get_config peers (key ∷ [])
  unfolding Worker.get_config CommandLine.get_config
  get_config_lem peers key eps e t = rw (valid_peers-parse_peers peers eps e, e, t)

  module _ (sha : Sha256) (ssl : OpenSsl) {World : Type 0}
      (call : World → PeerEndpoint → Bytes → World × Reply) (can_alloc : ℕ → Bool) where
    run_put_lem :
        (w : World) (fs : FileSystem) (path : Bytes) (cfg : Option ClientConfig)
        → Worker.run_put trimmed sha ssl call can_alloc w fs path cfg
          ≡ told (CommandLine.run_put sha ssl call can_alloc w fs path cfg)
    unfolding Worker.run_put CommandLine.run_put
    run_put_lem w fs path none = refl
    run_put_lem w fs path (some cfg) =
        let done = put_file sha ssl call can_alloc w fs cfg path in
        ap (λ (s : Signal). (done.0, done.1, s)) (put_signal_lem done.2)

    run_get_lem :
        (w : World) (fs : FileSystem) (ref out : Bytes) (cfg : Option ClientConfig)
        → Worker.run_get trimmed sha ssl call can_alloc w fs ref out cfg
          ≡ told (CommandLine.run_get sha ssl call can_alloc w fs ref out cfg)
    unfolding Worker.run_get CommandLine.run_get
    run_get_lem w fs ref out none = refl
    run_get_lem w fs ref out (some cfg) =
        let done = get_file sha ssl call can_alloc w fs cfg ref out in
        ap (λ (s : Signal). (done.0, done.1, s)) (get_signal_lem out done.2)

    -- Given a list of peers that the command line accepts, a chunk size and a number of replicas
    -- above zero, and a path of a key that trimming leaves alone, a slot of the worker does to
    -- the network and to the files what the program does when it is called with the same values, and it
    -- signals success exactly when the program succeeds, with the same results.
    pub slots-main :
        (w : World) (fs : FileSystem) (peers path ref out dir key : Bytes) (eps : List PeerEndpoint)
        (n r : ℕ)
        → parse_peers peers ≡ some eps
        → 0 < n
        → n < u64_mod
        → 0 < r
        → r < 2 ^ 31
        → trimmed key ≡ key
        → (put_file_slot trimmed sha ssl call can_alloc w fs peers path dir n (pos r) key
            ≡ told (
                main sha ssl call can_alloc w fs
                  (some dir)
                  (codes "put" ∷ peers ∷ path ∷ to_string n ∷ to_string_int (pos r) ∷ key ∷ [])))
          × (get_file_slot trimmed sha ssl call can_alloc w fs peers ref out key
              ≡ told (
                  main sha ssl call can_alloc w fs
                    (some dir)
                    (codes "get" ∷ peers ∷ ref ∷ out ∷ key ∷ [])))
    unfolding put_file_slot get_file_slot main put_main get_main
    slots-main w fs peers path ref out dir key eps n r e p fn q fr t = (
      ap (Worker.run_put trimmed sha ssl call can_alloc w fs path)
            (put_config_lem peers dir key eps n r e p fn q fr t)
          ∙ run_put_lem w fs path _
          ∙ ap told (sym (if_pos (bytes_discrete (codes "put") (codes "put")) refl _ _)),
      ap (Worker.run_get trimmed sha ssl call can_alloc w fs ref out)
            (get_config_lem peers key eps e t)
          ∙ run_get_lem w fs ref out _
          ∙ ap told (
              sym (
                skip_first (codes "get") (codes "put") _ _ (λ x. omega (arith, x))
                ∙ if_pos (bytes_discrete (codes "get") (codes "get")) refl _ _)),
    )
