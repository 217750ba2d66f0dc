-- ===== src/Client/Window/Handover.antt =====
-- src/client/main_window.cpp: the calls that are queued, from the click to the slot of the worker.
use s2_decentralised_storage.Prelude.{
  ℕ, ◌≡◌, refl, ap, ◌∙◌, Bool, true, false, some, List, [], ◌∷◌, ◌++◌, map, Bytes, All, arith,
}
use s2_decentralised_storage.Cpp.Int.{pos}
use s2_decentralised_storage.Crypto.Sha256.{Sha256}
use s2_decentralised_storage.Crypto.Hybrid.{OpenSsl}
use s2_decentralised_storage.Dht.Id.{PeerEndpoint}
use s2_decentralised_storage.FileSystem.{FileSystem}
use s2_decentralised_storage.Peer.Client.{Reply}
use s2_decentralised_storage.Tracker.{entry, is_empty}
use s2_decentralised_storage.Client.Peers.{valid_peers}
use s2_decentralised_storage.Client.Peers.Agreement.{IsListed, join, print, parse_peers-join}
use s2_decentralised_storage.Client.Qt.{Qt, IsQt}
use s2_decentralised_storage.Client.Window.{
  Window, Post, put_file, get_file, repair, merged_peers, discover_peers,
}
use s2_decentralised_storage.Client.Window.Actions.{
  started, post, chunk_size_text, tracker_ip, put_clicked,
}
use s2_decentralised_storage.Client.Worker as Worker
use s2_decentralised_storage.Client.Worker.{
  Signal, chunk_size_of, replicas_of, put_file_slot, get_file_slot, repair_slot, run_put,
}

module _ (trimmed : Bytes → Bytes) (sha : Sha256) (ssl : OpenSsl) {World : Type 0}
    (call : World → PeerEndpoint → Bytes → World × Reply) (can_alloc : ℕ → Bool) where
  -- What Qt calls for what is queued, on the worker's thread.
  unfoldable pub run_post : World → FileSystem → Post → World × FileSystem × Signal
  unfolding put_file_slot get_file_slot
  run_post w fs (put_file peers path dir size replicas key) =
      put_file_slot trimmed sha ssl call can_alloc w fs peers path dir size replicas key
  run_post w fs (get_file peers ref out key) =
      get_file_slot trimmed sha ssl call can_alloc w fs peers ref out key
  run_post w fs (repair peers replicas batch) = (w, fs, repair_slot peers replicas batch)

join-nonempty :
    (s : Bytes) (ss : List Bytes) → is_empty s ≡ false → is_empty (join (s ∷ ss)) ≡ false
unfolding is_empty
join-nonempty s [] h = h
join-nonempty [] (t ∷ ss) h = absurd (ground (arith, h))
join-nonempty (c ∷ s) (t ∷ ss) h = refl

entry-nonempty : (ip : Bytes) (ep : PeerEndpoint) → is_empty (entry ip ep.port) ≡ false
unfolding entry is_empty
entry-nonempty [] ep = refl
entry-nonempty (c ∷ ip) ep = refl

put_clicked-put_file :
    (qt : Qt) (file chunk key peers : Bytes) (replicas : ℕ) (v : Window)
    → tracker_ip qt v ≡ peers
    → is_empty peers ≡ false
    → is_empty (qt.trimmed file) ≡ false
    → put_clicked qt file chunk replicas key v
      ≡ post
          (put_file peers
            (qt.trimmed file)
            v.local_manifest_dir
            (chunk_size_text qt (qt.trimmed chunk))
            (pos replicas)
            (qt.trimmed key))
          v
unfolding put_clicked
put_clicked-put_file qt file chunk key peers replicas v e some_peers path = rw (e, some_peers, path)

put_config-some :
    (trimmed : Bytes → Bytes) (peers dir key : Bytes) (size replicas : ℕ) (eps : List PeerEndpoint)
    → valid_peers peers ≡ some eps
    → Worker.put_config trimmed peers dir size (pos replicas) key
      ≡ some (record {
        peers = eps;
        chunk_size = chunk_size_of size;
        desired_replicas = replicas_of (pos replicas);
        rsa_public_key_path = trimmed key;
        rsa_private_key_path = [];
        local_manifest_dir = dir;
      })
unfolding Worker.put_config
put_config-some trimmed peers dir key size replicas eps e = rw e

module _ (qt : Qt) (laws : IsQt qt) (online : Bytes → ℕ → Bool) (w : Window) (ep : PeerEndpoint)
    (eps : List PeerEndpoint) (found : merged_peers qt online w ≡ map print (ep ∷ eps))
    (bare : qt.trimmed (join (map print (ep ∷ eps))) ≡ join (map print (ep ∷ eps))) where
  tracker_ip-discover_peers :
      tracker_ip qt (discover_peers qt online w) ≡ join (map print (ep ∷ eps))
  unfolding tracker_ip discover_peers
  tracker_ip-discover_peers =
      ap qt.trimmed (laws.joined (merged_peers qt online w) ∙ ap join found) ∙ bare

  -- Behind a click on "put" in a window that found peers, which print as themselves in a list that
  -- trimming leaves alone, with a path that is not blank: one call is added to what is queued, the
  -- window is busy and has no other change, and when Qt runs the call, the worker stores that path
  -- with exactly the peers that were found, and the chunk size, replicas, key and folder of the
  -- window.
  pub put_clicked-run_post :
      (file chunk key : Bytes) (replicas : ℕ)
      → All IsListed (ep ∷ eps)
      → is_empty (qt.trimmed file) ≡ false
      → (sha : Sha256) (ssl : OpenSsl) {World : Type 0}
        (call : World → PeerEndpoint → Bytes → World × Reply) (can_alloc : ℕ → Bool) (world : World)
        (fs : FileSystem)
      → (queued : Post) × (put_clicked qt file chunk replicas key (discover_peers qt online w) ≡ (
        record (discover_peers qt online w) { busy = true; posted = w.posted ++ queued ∷ [] },
        started,
      ))
        × (run_post qt.trimmed sha ssl call can_alloc world fs queued
            ≡ run_put qt.trimmed sha ssl call can_alloc world fs (qt.trimmed file) (
                some (record {
                  peers = ep ∷ eps;
                  chunk_size = chunk_size_of (chunk_size_text qt (qt.trimmed chunk));
                  desired_replicas = replicas_of (pos replicas);
                  rsa_public_key_path = qt.trimmed (qt.trimmed key);
                  rsa_private_key_path = [];
                  local_manifest_dir = w.local_manifest_dir;
                })))
  unfolding run_post put_file_slot Worker.put_config post discover_peers
  put_clicked-run_post file chunk key replicas listed path sha ssl call can_alloc world fs =
      let peers = join (map print (ep ∷ eps)) in
      let size = chunk_size_text qt (qt.trimmed chunk) in
      (
        put_file peers (qt.trimmed file) w.local_manifest_dir size (pos replicas) (qt.trimmed key),
        put_clicked-put_file qt file chunk key peers replicas (discover_peers qt online w)
            tracker_ip-discover_peers
            (join-nonempty (print ep) (map print eps) (entry-nonempty ep.ip ep)) path,
        ap (Worker.run_put qt.trimmed sha ssl call can_alloc world fs (qt.trimmed file)) (
            put_config-some qt.trimmed peers w.local_manifest_dir (qt.trimmed key) size replicas
              (ep ∷ eps) (parse_peers-join ep eps listed).1),
      )
