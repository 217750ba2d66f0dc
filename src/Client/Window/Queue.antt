-- ===== src/Client/Window/Queue.antt =====
-- src/client/main_window.cpp: what the operations of the window do to the calls that are queued.
use s2_decentralised_storage.Prelude.{
  ℕ, ◌<◌, ◌≡◌, refl, ap, ◌∙◌, Bool, false, Bool-cases, Option, none, some, List, [], ◌∷◌, ◌++◌,
  Bytes, arith, inl, inr, All, All-append,
}
use s2_decentralised_storage.FileSystem.{FileSystem}
use s2_decentralised_storage.Storage.{or_else}
use s2_decentralised_storage.Tracker.{is_empty}
use s2_decentralised_storage.Client.Qt.{Qt}
use s2_decentralised_storage.Client.Worker.{
  Signal, put_finished, get_finished, repair_finished, error, chunk_size_of,
}
use s2_decentralised_storage.Client.Window.{
  Window, Post, put_file, get_file, repair, start_embedded_peer_if_enabled, load_bootstrap_seeds,
  discover_peers,
}
use s2_decentralised_storage.Client.Window.Preferences.{
  Answers, Form, Notice, restart_peer, with_form, apply_settings, with_network,
  apply_network_settings, restored, prompted, load_advertise_ip, load_or_prompt, open_window,
}
use s2_decentralised_storage.Client.Window.Actions.{
  chunk_size_or, tracker_ip, chunk_size_text, put_clicked, get_clicked, repair_clicked,
  download_clicked, on_signal, suggested_name,
}
use s2_decentralised_storage.Client.Window.Restart.{
  >>=-eq-some, start-SameButPeer, restart_peer_inv,
}

-- A call that the worker can make something of: there are peers, no path is empty, and the chunks
-- have a size.
abbrev pub IsReady : Post → Type 0
IsReady (put_file peers path dir size replicas key) =
    (is_empty peers ≡ false) × (is_empty path ≡ false) × (0 < size)
IsReady (get_file peers ref out key) =
    (is_empty peers ≡ false) × (is_empty ref ≡ false) × (is_empty out ≡ false)
IsReady (repair peers replicas batch) = is_empty peers ≡ false

chunk_size_or-positive : (o : Option ℕ) → 0 < chunk_size_or o
unfolding chunk_size_or chunk_size_of
chunk_size_or-positive none = omega arith
chunk_size_or-positive (some n) = ground arith

chunk_size_text-positive : (qt : Qt) (s : Bytes) → 0 < chunk_size_text qt s
unfolding chunk_size_text
chunk_size_text-positive qt [] = omega arith
chunk_size_text-positive qt (c ∷ s) = chunk_size_or-positive (qt.to_u64 (c ∷ s))

some-of {ℓ} : {A : Type ℓ} {a b : A} → some a ≡ some b → b ≡ a
some-of h = ground (arith, h)

module _ (qt : Qt) where
  -- At the end of the queue.
  queued_lem : (l : List Post) (p : Post) → All IsReady l → IsReady p → All IsReady (l ++ p ∷ [])
  queued_lem l p h r = All-append IsReady l (p ∷ []) h (r, tt)

  pub put_clicked-AreReady :
      (w : Window) (file chunk key : Bytes) (replicas : ℕ)
      → All IsReady w.posted
      → All IsReady (put_clicked qt file chunk replicas key w).0.posted
  unfolding put_clicked
  put_clicked-AreReady w file chunk key replicas h =
      elim (Bool-cases (is_empty (tracker_ip qt w))) [
        | inl alone ↦ rw alone h
        | inr peers ↦ elim (Bool-cases (is_empty (qt.trimmed file))) [
          | inl blank ↦ rw (peers, blank) h
          | inr path ↦
              rw (peers, path)
                (queued_lem w.posted _ h
                  (peers, path, chunk_size_text-positive qt (qt.trimmed chunk)))
        ]
      ]

  pub get_clicked-AreReady :
      (w : Window) (manifest output key : Bytes)
      → All IsReady w.posted
      → All IsReady (get_clicked qt manifest output key w).0.posted
  unfolding get_clicked
  get_clicked-AreReady w manifest output key h = elim (Bool-cases (is_empty (tracker_ip qt w))) [
    | inl alone ↦ rw alone h
    | inr peers ↦ elim (Bool-cases (is_empty (qt.trimmed manifest))) [
      | inl blank ↦ rw (peers, blank) h
      | inr ref ↦ elim (Bool-cases (is_empty (qt.trimmed output))) [
        | inl blank ↦ rw (peers, ref, blank) h
        | inr out ↦ rw (peers, ref, out) (queued_lem w.posted _ h (peers, ref, out))
      ]
    ]
  ]

  pub repair_clicked-AreReady :
      (w : Window) (replicas batch : ℕ)
      → All IsReady w.posted
      → All IsReady (repair_clicked qt replicas batch w).0.posted
  unfolding repair_clicked
  repair_clicked-AreReady w replicas batch h = elim (Bool-cases (is_empty (tracker_ip qt w))) [
    | inl alone ↦ rw alone h
    | inr peers ↦ rw peers (queued_lem w.posted _ h peers)
  ]

  pub download_clicked-AreReady :
      (w : Window) (choose : Bytes → Bytes) (share_id key : Bytes)
      → All IsReady w.posted
      → All IsReady (download_clicked qt choose share_id key w).0.posted
  unfolding download_clicked
  download_clicked-AreReady w choose share_id key h = elim (Bool-cases (is_empty share_id)) [
    | inl blank ↦ rw blank h
    | inr ref ↦ elim (Bool-cases (is_empty (tracker_ip qt w))) [
      | inl alone ↦ rw (ref, alone) h
      | inr peers ↦ elim (Bool-cases (is_empty (choose (suggested_name share_id)))) [
        | inl blank ↦ rw (ref, peers, blank) h
        | inr out ↦ rw (ref, peers, out) (queued_lem w.posted _ h (peers, ref, out))
      ]
    ]
  ]

  pub on_signal-posted :
      (fs : FileSystem) (s : Signal) (w : Window) → (on_signal fs s w).posted ≡ w.posted
  unfolding on_signal
  on_signal-posted fs (put_finished id path) w = refl
  on_signal-posted fs (get_finished path) w = refl
  on_signal-posted fs repair_finished w = refl
  on_signal-posted fs error w = refl

module _ (qt : Qt) (online : Bytes → ℕ → Bool) (serves : Bytes → Bool) where
  restart_peer-posted :
      (w : Window) {w' : Window} {n : Notice}
      → restart_peer qt online serves w ≡ some (w', n)
      → w'.posted ≡ w.posted
  restart_peer-posted w h =
      let (o, found, e) = restart_peer_inv qt online serves w h in ap (λ v. v.posted) e

  pub apply_settings-posted :
      (can_create : Bytes → Bool) (f : Form) (w w' : Window) (n : Notice)
      → apply_settings qt online serves can_create f w ≡ some (w', n)
      → w'.posted ≡ w.posted
  unfolding apply_settings with_form
  apply_settings-posted can_create f w w' n h =
      let dir = qt.trimmed f.storage_dir in
      let manifests = qt.trimmed f.manifest_dir in
      elim (Bool-cases (is_empty manifests)) [
        | inl blank ↦ ground (arith, h, blank)
        | inr folder ↦ elim (Bool-cases (can_create manifests)) [
          | inr missing ↦ ground (arith, h, folder, missing)
          | inl made ↦ elim (Bool-cases (is_empty dir)) [
            | inl blank ↦ ground (arith, h, folder, made, blank)
            | inr place ↦
                restart_peer-posted (with_form manifests dir f w) {w' = w'} {n = n}
                  (ground (arith, h, folder, made, place))
          ]
        ]
      ]

  pub apply_network_settings-posted :
      (address seeds : Bytes) (w w' : Window) (n : Notice)
      → apply_network_settings qt online serves address seeds w ≡ some (w', n)
      → w'.posted ≡ w.posted
  unfolding apply_network_settings with_network load_bootstrap_seeds
  apply_network_settings-posted address seeds w w' n h =
      elim (Bool-cases (is_empty (qt.trimmed address))) [
        | inl blank ↦ ground (arith, h, blank)
        | inr there ↦
            restart_peer-posted
              (load_bootstrap_seeds qt
                (with_network qt online serves (qt.trimmed address) (qt.trimmed seeds) w))
              {w' = w'} {n = n} (ground (arith, h, there))
      ]

  load_or_prompt-posted :
      (a : Answers) (app_data : Bytes) (w : Window)
      → (load_or_prompt qt a app_data w).posted ≡ w.posted
  unfolding load_or_prompt prompted restored load_advertise_ip load_bootstrap_seeds
  load_or_prompt-posted a app_data w = elim (Bool-cases (or_else w.settings.initialized false)) [
    | inl done ↦ rw done refl
    | inr fresh ↦ rw fresh refl
  ]

  pub open_window-posted :
      (a : Answers) (app_data : Bytes) (w w' : Window)
      → open_window qt online serves a app_data w ≡ some w'
      → w'.posted ≡ w.posted
  unfolding open_window discover_peers
  open_window-posted a app_data w w' h =
      let loaded = load_or_prompt qt a app_data w in
      let (running, e, h1) = >>=-eq-some (start_embedded_peer_if_enabled serves loaded) _ h in
      let (o, same) = start-SameButPeer serves loaded e in
      let last : w'.posted ≡ running.posted = ap (λ v. v.posted) (some-of h1) in
      last ∙ ap (λ v. v.posted) same ∙ load_or_prompt-posted a app_data w
