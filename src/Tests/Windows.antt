-- ===== src/Tests/Windows.antt =====
-- The graphical client.
use s2_decentralised_storage.Prelude.{
  false, ◌≢◌, All, ℕ, ◌⊎◌, ◌≡◌, ◌↔◌, refl, Bool, true, none, some, [], ◌∷◌, map, Bytes, codes,
  arith, bytes_discrete,
}
use s2_decentralised_storage.Cpp.Int.{pos, to_string_int, stoi}
use s2_decentralised_storage.Cpp.Decimal.{to_string, print_loop, read_number}
use s2_decentralised_storage.Net.Endpoint.{parse_peer_entry}
use s2_decentralised_storage.Client.Window.Preferences.{
  saved, with_form, apply_settings, load_or_prompt,
}
use s2_decentralised_storage.Peer.Lifecycle as Lifecycle
use s2_decentralised_storage.Client.Window.{
  Post, discover_peers, stop_if_running, start_embedded_peer_if_enabled,
}
use s2_decentralised_storage.Client.Window.Actions.{started, put_clicked}
use s2_decentralised_storage.Client.Window.Handover.{run_post}
use s2_decentralised_storage.Client.Window.Restart.{IsSamePeer}
use s2_decentralised_storage.Client.Worker.{run_put, replicas_of, chunk_size_of}
use s2_decentralised_storage.Tests.Keys.{toy_sha, toy_ssl}
use s2_decentralised_storage.Tests.Download.{call, any_size}
use s2_decentralised_storage.Tests.Programs.{disk, launched}
use s2_decentralised_storage.Client.Window.Actions.{chunk_size_text}
use s2_decentralised_storage.Tracker.{is_empty, entry, is_in, insert_location}
use s2_decentralised_storage.Tracker.Invariant.{NoDup}
use s2_decentralised_storage.Client.Peers.Agreement.{join, print}
use s2_decentralised_storage.Client.Window.{Window, merged_peers}
use s2_decentralised_storage.Client.Window.Preferences.{Answers, Form}
use s2_decentralised_storage.Client.Window.Discovery.{merged_peers_lem}
use s2_decentralised_storage.Client.Window.Discovery.{IsNamed, contributes, HavePlainHosts}
use s2_decentralised_storage.Tests.Programs.{host, peer, peer-IsListed}
use s2_decentralised_storage.Client.Window.Restart.{apply_settings-load_or_prompt}
use s2_decentralised_storage.Client.Window.Handover.{put_clicked-run_post}
use s2_decentralised_storage.Tests.Texts.{qt, qt-IsQt}

abbrev any_seed : Bytes → ℕ → Bool
any_seed ip port = true

-- A window that has found its two bootstrap nodes, and does not contribute.
abbrev window : Window
window = record {
  settings = record {
    initialized = some true;
    enabled = none;
    max_bytes = none;
    port = none;
    storage_dir = none;
    manifest_dir = none;
    seeds = none;
    advertise_ip = none;
  };
  peer_enabled = false;
  peer_max_bytes = 0;
  peer_port = pos 9;
  peer_storage_dir = codes "p";
  local_manifest_dir = codes "d";
  peer_advertise_ip = host;
  bootstrap_nodes = print peer ∷ print peer ∷ [];
  discovered_peers_csv = [];
  embedded_peer_service = none;
  busy = false;
  posted = [];
  files = [];
}

seeds-plain : HavePlainHosts qt window.bootstrap_nodes
unfolding parse_peer_entry entry to_string_int to_string print_loop stoi read_number
seeds-plain =
    let plain : All (λ c. c ≢ b'%') host =
      ((λ e. omega (arith, e)), ((λ e. omega (arith, e)), ((λ e. omega (arith, e)), tt))) in
    (plain, (plain, tt))

merged_peers_lem_example :
    NoDup (merged_peers qt any_seed window)
    × ((is_in (print peer) (merged_peers qt any_seed window) ≡ true) ↔ (
        IsNamed any_seed (print peer) (map qt.trimmed window.bootstrap_nodes)
        ⊎ (contributes window ≡ true) × (print peer ≡ entry host (pos 9))))
merged_peers_lem_example = merged_peers_lem qt qt-IsQt any_seed window (print peer) seeds-plain

merged : merged_peers qt any_seed window ≡ map print (peer ∷ [])
unfolding merged_peers entry parse_peer_entry to_string_int to_string print_loop stoi read_number
    insert_location is_in bytes_discrete
merged = refl

put_clicked-run_post_example :
    (queued : Post) × (put_clicked qt
        (codes "f")
        (codes "3")
        2
        (codes "k")
        (discover_peers qt any_seed window)
      ≡ (record (discover_peers qt any_seed window) { busy = true; posted = queued ∷ [] }, started))
    × (run_post qt.trimmed toy_sha toy_ssl call any_size 0 disk queued
        ≡ run_put qt.trimmed toy_sha toy_ssl call any_size 0 disk (codes "f") (
            some (record {
              peers = peer ∷ [];
              chunk_size = chunk_size_of (chunk_size_text qt (codes "3"));
              desired_replicas = replicas_of (pos 2);
              rsa_public_key_path = codes "k";
              rsa_private_key_path = [];
              local_manifest_dir = codes "d";
            })))
unfolding is_empty
put_clicked-run_post_example =
    put_clicked-run_post qt qt-IsQt any_seed window peer [] merged refl (codes "f") (codes "3")
      (codes "k") 2 (peer-IsListed, tt) refl toy_sha toy_ssl call any_size 0 disk

-- Two gibibytes on another port, and the peer is started.
abbrev form : Form
form = record {
  manifest_dir = codes "m";
  enabled = true;
  port = 7;
  gib = 2;
  storage_dir = codes "s";
}

abbrev answers : Answers
answers = record { contribute = false; gib = 1; port = 1 }

abbrev any_folder : Bytes → Bool
any_folder dir = true

abbrev none_online : Bytes → ℕ → Bool
none_online ip port = false

abbrev lone_window : Window
lone_window = record window { bootstrap_nodes = [] }

abbrev applied : Window
applied = record (with_form (codes "m") (codes "s") form lone_window) {
  embedded_peer_service = some launched;
  discovered_peers_csv = join (entry host (pos 7) ∷ []);
}

form_saved :
    apply_settings qt none_online any_folder any_folder form lone_window ≡ some (applied, saved)
unfolding apply_settings is_empty stop_if_running start_embedded_peer_if_enabled Lifecycle.start
    Lifecycle.create discover_peers entry is_in insert_location
form_saved = refl

apply_settings-load_or_prompt_example :
    IsSamePeer
      (load_or_prompt qt answers (codes "a") (record window { settings = applied.settings }))
      applied
apply_settings-load_or_prompt_example =
    apply_settings-load_or_prompt qt (λ s. refl) none_online any_folder any_folder answers
      (codes "a") form lone_window applied (record window { settings = applied.settings }) refl
      form_saved refl

-- The window as it is opened, with the peer running and what was found.
abbrev opened_window : Window
opened_window = discover_peers qt any_seed (record (load_or_prompt qt answers (codes "a") window) {
  embedded_peer_service = some launched;
})
