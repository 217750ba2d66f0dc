-- ===== src/Client/Window/Session.antt =====
-- src/client/main_window.cpp: everything that can happen to a window, one event after the other.
use s2_decentralised_storage.Prelude.{ℕ, ◌≡◌, Bool, some, [], Bytes}
use s2_decentralised_storage.FileSystem.{FileSystem}
use s2_decentralised_storage.Client.Qt.{Qt}
use s2_decentralised_storage.Client.Worker.{Signal}
use s2_decentralised_storage.Client.Window.{Window, discover_peers}
use s2_decentralised_storage.Client.Window.Preferences.{
  Answers, Form, Notice, apply_settings, apply_network_settings, open_window,
}
use s2_decentralised_storage.Client.Window.Actions.{
  put_clicked, get_clicked, repair_clicked, download_clicked, on_signal,
}

module _ (qt : Qt) where
  -- An event: a click with what the user has typed, a signal of the worker, or new settings; what
  -- can be reached, made and started is another at each.
  pub data Step (w : Window) : Window → Type 0 where
    put :
        (file chunk key : Bytes) (replicas : ℕ)
        → Step w (put_clicked qt file chunk replicas key w).0
    get : (manifest output key : Bytes) → Step w (get_clicked qt manifest output key w).0
    repair_all : (replicas batch : ℕ) → Step w (repair_clicked qt replicas batch w).0
    download :
        (choose : Bytes → Bytes) (share_id key : Bytes)
        → Step w (download_clicked qt choose share_id key w).0
    signalled : (fs : FileSystem) (s : Signal) → Step w (on_signal fs s w)
    refreshed : (online : Bytes → ℕ → Bool) → Step w (discover_peers qt online w)
    applied :
        (online : Bytes → ℕ → Bool) (serves can_create : Bytes → Bool) (f : Form) {w' : Window}
        {n : Notice}
        → apply_settings qt online serves can_create f w ≡ some (w', n)
        → Step w w'
    networked :
        (online : Bytes → ℕ → Bool) (serves : Bytes → Bool) (address seeds : Bytes) {w' : Window}
        {n : Notice}
        → apply_network_settings qt online serves address seeds w ≡ some (w', n)
        → Step w w'

  pub data Reachable : Window → Type 0 where
    opened :
        (online : Bytes → ℕ → Bool) (serves : Bytes → Bool) (a : Answers) (app_data : Bytes)
        (w : Window) {w' : Window}
        → w.posted ≡ []
        → open_window qt online serves a app_data w ≡ some w'
        → Reachable w'
    next : {v w : Window} → Reachable v → Step v w → Reachable w
