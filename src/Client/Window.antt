-- ===== src/Client/Window.antt =====
-- src/client/main_window.h and .cpp: the state of the window, the embedded peer and the discovery of
-- peers. Qt and the network are parameters, the widgets' layout and the log are left out; `none` is a
-- process that `std::terminate` has ended.
pub mod Preferences
pub mod Actions
pub mod Discovery
pub mod Restart
pub mod Handover
pub mod Queue
pub mod Session
use s2_decentralised_storage.Prelude.{
  ◌*◌, ◌/◌, length, ℕ, zero, suc, Bool, true, false, ◌&&◌, Option, none, some, List, [], ◌∷◌, ◌++◌,
  map, Bytes, codes, if◌then◌else◌, ◌>>=◌, ◌==◌,
}
use s2_decentralised_storage.Cpp.Int.{ℤ, pos, negsuc, to_string_int}
use s2_decentralised_storage.Dht.Id.{PeerEndpoint}
use s2_decentralised_storage.Net.Connect.{to_u16}
use s2_decentralised_storage.Net.Endpoint.{Parsed, parsed, invalid, parse_peer_entry}
use s2_decentralised_storage.Peer.Lifecycle as Lifecycle
use s2_decentralised_storage.Peer.Lifecycle.{Server}
use s2_decentralised_storage.Storage.{or_else}
use s2_decentralised_storage.Tracker.{entry, is_empty}
use s2_decentralised_storage.Client.Qt.{Qt}

-- The values that `QSettings` keeps; none for a key that is not there.
pub record Settings : Type 0 where
  pub initialized : Option Bool
  pub enabled : Option Bool
  pub max_bytes : Option ℕ
  pub port : Option ℤ
  pub storage_dir : Option Bytes
  pub manifest_dir : Option Bytes
  pub seeds : Option Bytes
  pub advertise_ip : Option Bytes

-- A call that is queued for the worker.
pub data Post : Type 0 where
  put_file : Bytes → Bytes → Bytes → ℕ → ℤ → Bytes → Post
  get_file : Bytes → Bytes → Bytes → Bytes → Post
  repair : Bytes → ℤ → ℤ → Post

-- A line of the table of stored files.
pub record Row : Type 0 where
  pub share_id : Bytes
  pub name : Bytes
  pub size : Bytes

pub record Window : Type 0 where
  pub settings : Settings
  pub peer_enabled : Bool
  pub peer_max_bytes : ℕ
  pub peer_port : ℤ
  pub peer_storage_dir : Bytes
  pub local_manifest_dir : Bytes
  pub peer_advertise_ip : Bytes
  pub bootstrap_nodes : List Bytes
  pub discovered_peers_csv : Bytes
  pub embedded_peer_service : Option Server
  pub busy : Bool
  pub posted : List Post
  pub files : List Row

unfoldable pub is_running : Option Server → Bool
is_running none = false
is_running (some s) = s.running

-- `startEmbeddedPeerIfEnabled`: the new service takes the place of one that does not run, whose
-- destructor is called before the new one starts.
unfoldable pub drop_service : Option Server → Option (Unit {0})
drop_service none = some tt
drop_service (some s) = Lifecycle.destroy s

-- `serves dir` is whether the service can be made for a folder and its thread started; where not,
-- the exception leaves no service behind, the one before neither.
module _ (serves : Bytes → Bool) where
  unfoldable pub replace_service : Window → Option Window
  unfolding drop_service
  replace_service w = do
    _ ← drop_service w.embedded_peer_service
    s ← Lifecycle.start Lifecycle.create
    some (record w { embedded_peer_service = if serves w.peer_storage_dir then some s else none })

  unfoldable pub start_embedded_peer_if_enabled : Window → Option Window
  unfolding replace_service is_running
  start_embedded_peer_if_enabled w =
      if w.peer_enabled
      then if is_running w.embedded_peer_service
        then some w
        else if is_empty w.peer_storage_dir
        then some w
        else replace_service w
      else some w

unfoldable pub stopped : Window → Option Server → Option Window
stopped w none = some w
stopped w (some s) = do
  _ ← Lifecycle.destroy (Lifecycle.stop s)
  some (record w { embedded_peer_service = none })

unfoldable pub stop_embedded_peer : Window → Option Window
unfolding stopped
stop_embedded_peer w = stopped w w.embedded_peer_service

-- `if (hadRunning) stopEmbeddedPeer();`
unfoldable pub stop_if_running : Window → Option Window
unfolding stop_embedded_peer is_running
stop_if_running w = if is_running w.embedded_peer_service then stop_embedded_peer w else some w

unfoldable pub default_seeds : Bytes
default_seeds = codes "127.0.0.1:9101,127.0.0.1:9102,127.0.0.1:9103"

-- `ep.port <= 0`
unfoldable pub is_positive : ℤ → Bool
is_positive (pos zero) = false
is_positive (pos (suc n)) = true
is_positive (negsuc n) = false

unfoldable pub push_nonempty : Bytes → List Bytes → List Bytes
push_nonempty [] rest = rest
push_nonempty (c ∷ s) rest = (c ∷ s) ∷ rest

module _ (qt : Qt) where
  unfoldable pub trimmed_parts : List Bytes → List Bytes
  unfolding push_nonempty
  trimmed_parts [] = []
  trimmed_parts (p ∷ ps) = push_nonempty (qt.trimmed p) (trimmed_parts ps)

  unfoldable pub nodes_or_default : List Bytes → List Bytes
  nodes_or_default [] = map qt.trimmed (qt.split_commas default_seeds)
  nodes_or_default (n ∷ ns) = n ∷ ns

  unfoldable pub load_bootstrap_seeds : Window → Window
  unfolding trimmed_parts nodes_or_default
  load_bootstrap_seeds w =
      let seeds = or_else w.settings.seeds default_seeds in
      record w { bootstrap_nodes = nodes_or_default (trimmed_parts (qt.split_commas seeds)) }

  -- `QStringLiteral("%1:%2").arg(ip).arg(port)`: the second `arg` looks for a marker in what the
  -- first one made.
  unfoldable pub shown_peer : PeerEndpoint → Bytes
  shown_peer ep = qt.arg (qt.arg (codes "%1:%2") ep.ip) (to_string_int ep.port)

  -- `online ip port` is whether a connection can be made in time.
  module _ (online : Bytes → ℕ → Bool) where
    unfoldable pub push_online : Parsed → List Bytes → List Bytes
    unfolding is_positive shown_peer
    push_online (invalid message) rest = rest
    push_online (parsed ep) rest =
        if is_positive ep.port && online ep.ip (to_u16 ep.port) then shown_peer ep ∷ rest else rest

    unfoldable pub push_seed : Bytes → List Bytes → List Bytes
    unfolding push_online
    push_seed [] rest = rest
    push_seed (c ∷ s) rest = push_online (parse_peer_entry (c ∷ s)) rest

    unfoldable pub online_seeds : List Bytes → List Bytes
    unfolding push_seed
    online_seeds [] = []
    online_seeds (n ∷ ns) = push_seed (qt.trimmed n) (online_seeds ns)

    -- `arg` with both texts at once puts both in.
    unfoldable pub with_local : Window → List Bytes → List Bytes
    unfolding is_running
    with_local w merged =
        let here = entry w.peer_advertise_ip w.peer_port in
        if w.peer_enabled && is_running w.embedded_peer_service
        then if qt.contains merged here then merged else merged ++ here ∷ []
        else merged

    -- The peers that are found, before they are joined to one text.
    unfoldable pub merged_peers : Window → List Bytes
    unfolding online_seeds with_local
    merged_peers w = qt.remove_duplicates (with_local w (online_seeds w.bootstrap_nodes))

    unfoldable pub discover_peers : Window → Window
    unfolding merged_peers
    discover_peers w = record w { discovered_peers_csv = qt.join_commas (merged_peers w) }

-- The line under the list of peers; sizes are in MiB.
pub data Status : Type 0 where
  client_unreachable : Status
  client_only : ℕ → Status
  alone : ℤ → ℕ → Status
  contributing : ℕ → Bool → ℤ → ℕ → Status

unfoldable pub bootstrap_status : Window → List Bytes → Status
unfolding is_running
bootstrap_status w merged =
    let mib = w.peer_max_bytes / (1024 * 1024) in
    if w.peer_enabled
    then if is_empty merged
      then alone w.peer_port mib
      else contributing (length merged) (is_running w.embedded_peer_service) w.peer_port mib
    else if is_empty merged
    then client_unreachable
    else client_only (length merged)
