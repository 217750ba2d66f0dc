-- ===== src/Client/Window/Preferences.antt =====
-- src/client/main_window.cpp: the settings, from where they are kept, from the first dialogs and from the
-- tabs, and the window's start and end.
use s2_decentralised_storage.Prelude.{
  ℕ, ◌*◌, ◌/◌, Bool, true, false, Option, none, some, [], ◌∷◌, ◌++◌, Bytes, codes, ltb,
  if◌then◌else◌, ◌>>=◌,
}
use s2_decentralised_storage.Cpp.Int.{pos}
use s2_decentralised_storage.Storage.{or_else}
use s2_decentralised_storage.Tracker.{is_empty}
use s2_decentralised_storage.Client.Qt.{Qt}
use s2_decentralised_storage.Client.Window.{
  Window, start_embedded_peer_if_enabled, stop_embedded_peer, stop_if_running, default_seeds,
  load_bootstrap_seeds, discover_peers,
}

abbrev pub gibibyte : ℕ
gibibyte = 1024 * 1024 * 1024

-- What the user answers at the first start; the dialogs give numbers in their ranges.
pub record Answers : Type 0 where
  pub contribute : Bool
  pub gib : ℕ
  pub port : ℕ

-- Keeps a value that is there.
unfoldable pub keep_or {ℓ} : {A : Type ℓ} → Option A → A → Option A
keep_or none a = some a
keep_or (some b) a = some b

unfoldable pub nonempty_or : Bytes → Bytes → Bytes
nonempty_or [] d = d
nonempty_or (c ∷ s) d = c ∷ s

-- `writableLocation`, or the current folder.
unfoldable pub data_dir : Bytes → Bytes
unfolding nonempty_or
data_dir app_data = nonempty_or app_data (codes ".")

unfoldable pub prompted : Answers → Bytes → Window → Window
unfolding keep_or
prompted a app_data w =
    let bytes = a.gib * gibibyte in
    let storage = data_dir app_data ++ codes "/peer-storage" in
    let manifests = data_dir app_data ++ codes "/manifests" in
    record w {
      peer_enabled = a.contribute;
      peer_max_bytes = bytes;
      peer_port = pos a.port;
      peer_storage_dir = storage;
      local_manifest_dir = manifests;
      settings = record {
        initialized = some true;
        enabled = some a.contribute;
        max_bytes = some bytes;
        port = some (pos a.port);
        storage_dir = some storage;
        manifest_dir = some manifests;
        seeds = keep_or w.settings.seeds default_seeds;
        advertise_ip = keep_or w.settings.advertise_ip (codes "127.0.0.1");
      };
    }

module _ (qt : Qt) where
  unfoldable pub restored : Bytes → Window → Window
  unfolding nonempty_or data_dir
  restored app_data w =
      let manifests = data_dir app_data ++ codes "/manifests" in
      record w {
        peer_enabled = or_else w.settings.enabled true;
        peer_max_bytes = or_else w.settings.max_bytes (5 * gibibyte);
        peer_port = or_else w.settings.port (pos 9101);
        peer_storage_dir =
            nonempty_or (or_else w.settings.storage_dir [])
              (data_dir app_data ++ codes "/peer-storage");
        local_manifest_dir =
            nonempty_or (qt.trimmed (or_else w.settings.manifest_dir manifests)) manifests;
      }

  unfoldable pub load_advertise_ip : Window → Window
  unfolding nonempty_or
  load_advertise_ip w = record w {
    peer_advertise_ip =
        nonempty_or (qt.trimmed (or_else w.settings.advertise_ip (codes "127.0.0.1")))
          (codes "127.0.0.1");
  }

  -- `loadOrPromptPeerSettings`
  unfoldable pub load_or_prompt : Answers → Bytes → Window → Window
  unfolding prompted restored load_advertise_ip
  load_or_prompt a app_data w = load_advertise_ip (
      load_bootstrap_seeds qt (
        if or_else w.settings.initialized false
        then restored app_data w
        else prompted a app_data w))

-- `syncPeerSettingsToUi`: the gibibytes that are shown.
unfoldable pub shown_gib : ℕ → ℕ
shown_gib bytes =
    let gib = bytes / gibibyte in if ltb gib 1 then 1 else if ltb 1024 gib then 1024 else gib

-- The texts and numbers of the tab when it is applied.
pub record Form : Type 0 where
  pub manifest_dir : Bytes
  pub enabled : Bool
  pub port : ℕ
  pub gib : ℕ
  pub storage_dir : Bytes

-- What the user is told.
pub data Notice : Type 0 where
  saved no_manifest_dir no_such_manifest_dir no_storage_dir no_address : Notice

-- The values that are kept, and the fields that take them.
unfoldable pub with_form : Bytes → Bytes → Form → Window → Window
with_form manifests dir f w =
    let bytes = f.gib * gibibyte in
    record w {
      local_manifest_dir = manifests;
      peer_enabled = f.enabled;
      peer_port = pos f.port;
      peer_max_bytes = bytes;
      peer_storage_dir = dir;
      settings = record w.settings {
        manifest_dir = some manifests;
        enabled = some f.enabled;
        port = some (pos f.port);
        max_bytes = some bytes;
        storage_dir = some dir;
      };
    }

module _ (qt : Qt) (online : Bytes → ℕ → Bool) (serves : Bytes → Bool) where
  -- The embedded peer is started anew and the peers are looked for again.
  unfoldable pub restart_peer : Window → Option (Window × Notice)
  restart_peer w = do
    halted ← stop_if_running w
    running ← start_embedded_peer_if_enabled serves halted
    some (discover_peers qt online running, saved)

  -- `onApplySettingsClicked`; `can_create` is whether a folder is there or can be made.
  unfoldable pub apply_settings : (Bytes → Bool) → Form → Window → Option (Window × Notice)
  unfolding restart_peer with_form
  apply_settings can_create f w =
      let manifests = qt.trimmed f.manifest_dir in
      let dir = qt.trimmed f.storage_dir in
      if is_empty manifests
      then some (w, no_manifest_dir)
      else if can_create manifests
      then if is_empty dir
        then some (w, no_storage_dir)
        else restart_peer (with_form manifests dir f w)
      else some (w, no_such_manifest_dir)

  unfoldable pub with_network : Bytes → Bytes → Window → Window
  unfolding nonempty_or
  with_network adv seeds w = record w {
    peer_advertise_ip = adv;
    settings = record w.settings {
      seeds = some (nonempty_or seeds default_seeds);
      advertise_ip = some adv;
    };
  }

  -- `onApplyNetworkSettingsClicked`
  unfoldable pub apply_network_settings : Bytes → Bytes → Window → Option (Window × Notice)
  unfolding restart_peer with_network
  apply_network_settings address seeds w =
      let adv = qt.trimmed address in
      if is_empty adv
      then some (w, no_address)
      else restart_peer (load_bootstrap_seeds qt (with_network adv (qt.trimmed seeds) w))

  -- The constructor, on the settings that are kept.
  unfoldable pub open_window : Answers → Bytes → Window → Option Window
  open_window a app_data w = do
    started ← start_embedded_peer_if_enabled serves (load_or_prompt qt a app_data w)
    some (discover_peers qt online started)

-- The destructor.
unfoldable pub close_window : Window → Option Window
close_window w = stop_embedded_peer w
