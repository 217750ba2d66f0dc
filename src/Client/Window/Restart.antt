-- ===== src/Client/Window/Restart.antt =====
-- The settings that are applied are those of the next start.
use s2_decentralised_storage.Prelude.{
  ◌*◌, ◌++◌, codes, ℕ, ◌≡◌, refl, ap, sym, subst, ◌∙◌, Bool, true, false, Option, none, some, [],
  ◌∷◌, Bytes, arith, Bool-cases, inl, inr, if◌then◌else◌, ◌>>=◌,
}
use s2_decentralised_storage.Peer.Lifecycle as Lifecycle
use s2_decentralised_storage.Peer.Lifecycle.{Server}
use s2_decentralised_storage.Storage.{or_else}
use s2_decentralised_storage.Tracker.{is_empty}
use s2_decentralised_storage.Cpp.Int.{pos}
use s2_decentralised_storage.Client.Qt.{Qt}
use s2_decentralised_storage.Client.Window.{
  Window, is_running, drop_service, replace_service, start_embedded_peer_if_enabled, stopped,
  stop_embedded_peer, stop_if_running, load_bootstrap_seeds, discover_peers,
}
use s2_decentralised_storage.Client.Window.Preferences.{
  gibibyte, data_dir, Answers, Form, Notice, saved, restart_peer, with_form, apply_settings,
  nonempty_or, restored, prompted, load_advertise_ip, load_or_prompt,
}

pub >>=-eq-some {ℓ κ} :
    {A : Type ℓ} {B : Type κ} (m : Option A) (f : A → Option B) {b : B}
    → (m >>= f) ≡ some b
    → (a : A) × (m ≡ some a) × (f a ≡ some b)
>>=-eq-some none f h = absurd (ground (arith, h))
>>=-eq-some (some a) f h = (a, refl, h)

some-fst {ℓ κ} :
    {A : Type ℓ} {B : Type κ} {a c : A} {b d : B}
    → ◌≡◌ {A = Option (A × B)} (some (a, b)) (some (c, d))
    → c ≡ a
some-fst h = ground (arith, h)

abbrev with_found : Bytes → Window → Window
with_found found w = record w { discovered_peers_csv = found }

abbrev with_service : Option Server → Window → Window
with_service o w = record w { embedded_peer_service = o }

-- At most the embedded peer has changed.
abbrev SameButPeer : Window → Window → Type 0
SameButPeer w w' = (o : Option Server) × (w' ≡ record w { embedded_peer_service = o })

replace-SameButPeer :
    (serves : Bytes → Bool) (w : Window) {w' : Window}
    → replace_service serves w ≡ some w'
    → SameButPeer w w'
unfolding replace_service
replace-SameButPeer serves w h =
    let (_, _, h1) = >>=-eq-some (drop_service w.embedded_peer_service) _ h in
    let (s, _, h2) = >>=-eq-some (Lifecycle.start Lifecycle.create) _ h1 in
    (if serves w.peer_storage_dir then some s else none, ground (arith, h2))

pub start-SameButPeer :
    (serves : Bytes → Bool) (w : Window) {w' : Window}
    → start_embedded_peer_if_enabled serves w ≡ some w'
    → SameButPeer w w'
unfolding start_embedded_peer_if_enabled
start-SameButPeer serves w h = elim (Bool-cases w.peer_enabled) [
  | inr off ↦ (w.embedded_peer_service, ground (arith, h, off))
  | inl on ↦ elim (Bool-cases (is_running w.embedded_peer_service)) [
    | inl run ↦ (w.embedded_peer_service, ground (arith, h, on, run))
    | inr idle ↦ elim (Bool-cases (is_empty w.peer_storage_dir)) [
      | inl nil ↦ (w.embedded_peer_service, ground (arith, h, on, idle, nil))
      | inr dir ↦ replace-SameButPeer serves w (ground (arith, h, on, idle, dir))
    ]
  ]
]

stopped-SameButPeer :
    (w : Window) (o : Option Server) {w' : Window}
    → w.embedded_peer_service ≡ o
    → stopped w o ≡ some w'
    → SameButPeer w w'
unfolding stopped
stopped-SameButPeer w none e h = (w.embedded_peer_service, ground (arith, h))
stopped-SameButPeer w (some s) e h =
    let (_, _, h1) = >>=-eq-some (Lifecycle.destroy (Lifecycle.stop s)) _ h in
    (none, ground (arith, h1))

stop-SameButPeer : (w : Window) {w' : Window} → stop_if_running w ≡ some w' → SameButPeer w w'
unfolding stop_if_running stop_embedded_peer
stop-SameButPeer w h = elim (Bool-cases (is_running w.embedded_peer_service)) [
  | inl run ↦ stopped-SameButPeer w w.embedded_peer_service refl (ground (arith, h, run))
  | inr idle ↦ (w.embedded_peer_service, ground (arith, h, idle))
]

nonempty_or_lem : (s d : Bytes) → is_empty s ≡ false → nonempty_or s d ≡ s
unfolding nonempty_or is_empty
nonempty_or_lem [] d h = absurd (ground (arith, h))
nonempty_or_lem (c ∷ s) d h = refl

module _ (qt : Qt) (online : Bytes → ℕ → Bool) (serves : Bytes → Bool) where
  -- Beside the embedded peer, what was found may have changed.
  pub restart_peer_inv :
      (w : Window) {w' : Window} {n : Notice}
      → restart_peer qt online serves w ≡ some (w', n)
      → (o : Option Server) × (found : Bytes) × (w'
          ≡ record w { embedded_peer_service = o; discovered_peers_csv = found })
  unfolding restart_peer discover_peers
  restart_peer_inv w h =
      let (halted, e1, h1) = >>=-eq-some (stop_if_running w) _ h in
      let (running, e2, h2) = >>=-eq-some (start_embedded_peer_if_enabled serves halted) _ h1 in
      let (o1, p1) = stop-SameButPeer w e1 in
      let (o2, p2) = start-SameButPeer serves halted e2 in
      let shown = (discover_peers qt online running).discovered_peers_csv in
      (o2, shown, some-fst h2 ∙ ap (λ v. with_found shown v) (p2 ∙ ap (λ v. with_service o2 v) p1))

  -- Settings that were saved had two folders, and went into the fields and the settings.
  record WasApplied (f : Form) (w w' : Window) : Type 0 where
    manifests : is_empty (qt.trimmed f.manifest_dir) ≡ false
    dir : is_empty (qt.trimmed f.storage_dir) ≡ false
    service : Option Server
    found : Bytes
    result : w' ≡ record (with_form (qt.trimmed f.manifest_dir) (qt.trimmed f.storage_dir) f w) {
      embedded_peer_service = service;
      discovered_peers_csv = found;
    }

  apply_settings_inv :
      (can_create : Bytes → Bool) (f : Form) (w w' : Window)
      → apply_settings qt online serves can_create f w ≡ some (w', saved)
      → WasApplied f w w'
  unfolding apply_settings
  apply_settings_inv can_create f w w' h =
      elim (Bool-cases (is_empty (qt.trimmed f.manifest_dir))) [
        | inl blank ↦ absurd (ground (arith, h, blank))
        | inr folder ↦ elim (Bool-cases (can_create (qt.trimmed f.manifest_dir))) [
          | inr missing ↦ absurd (ground (arith, h, folder, missing))
          | inl made ↦ elim (Bool-cases (is_empty (qt.trimmed f.storage_dir))) [
            | inl empty ↦ absurd (ground (arith, h, folder, made, empty))
            | inr dir ↦
                let (o, found, e) =
                  restart_peer_inv
                    (with_form (qt.trimmed f.manifest_dir) (qt.trimmed f.storage_dir) f w)
                    {n = saved} (ground (arith, h, folder, made, dir)) in
                record { manifests = folder; dir = dir; service = o; found = found; result = e }
          ]
        ]
      ]

-- The fields of the embedded peer and of the manifests' folder are the same.
pub record IsSamePeer (r w : Window) : Type 0 where
  pub enabled : r.peer_enabled ≡ w.peer_enabled
  pub max_bytes : r.peer_max_bytes ≡ w.peer_max_bytes
  pub port : r.peer_port ≡ w.peer_port
  pub storage_dir : r.peer_storage_dir ≡ w.peer_storage_dir
  pub manifest_dir : r.local_manifest_dir ≡ w.local_manifest_dir

module _ (qt : Qt) where
  load_or_prompt-restored :
      (a : Answers) (app_data : Bytes) (w : Window)
      → w.settings.initialized ≡ some true
      → load_or_prompt qt a app_data w
        ≡ load_advertise_ip qt (load_bootstrap_seeds qt (restored qt app_data w))
  unfolding load_or_prompt or_else
  load_or_prompt-restored a app_data w h =
      ap
        (λ o. load_advertise_ip qt (
          load_bootstrap_seeds qt
            (if or_else o false then restored qt app_data w else prompted a app_data w)))
        h

  -- What was saved is in the settings that the next start reads.
  module _ (online : Bytes → ℕ → Bool) (serves : Bytes → Bool) (f : Form) (w w' next : Window)
      (was : WasApplied qt online serves f w w') (same : next.settings ≡ w'.settings) where
    kept_settings :
        next.settings
        ≡ (with_form (qt.trimmed f.manifest_dir) (qt.trimmed f.storage_dir) f w).settings
    unfolding with_form
    kept_settings = same ∙ ap (λ v. v.settings) was.result

    restored-IsSamePeer :
        (idem : (s : Bytes) → qt.trimmed (qt.trimmed s) ≡ qt.trimmed s) (app_data : Bytes)
        → IsSamePeer (restored qt app_data next) w'
    unfolding restored with_form or_else
    restored-IsSamePeer idem app_data =
        let folder = data_dir app_data ++ codes "/manifests" in
        record {
          enabled =
              ap (λ s. or_else s.enabled true) kept_settings
              ∙ sym (ap (λ v. v.peer_enabled) was.result);
          max_bytes =
              ap (λ s. or_else s.max_bytes (5 * gibibyte)) kept_settings
              ∙ sym (ap (λ v. v.peer_max_bytes) was.result);
          port =
              ap (λ s. or_else s.port (pos 9101)) kept_settings
              ∙ sym (ap (λ v. v.peer_port) was.result);
          storage_dir =
              ap
                (λ s.
                  nonempty_or (or_else s.storage_dir [])
                    (data_dir app_data ++ codes "/peer-storage"))
                kept_settings
              ∙ nonempty_or_lem (qt.trimmed f.storage_dir) _ was.dir
              ∙ sym (ap (λ v. v.peer_storage_dir) was.result);
          manifest_dir =
              ap (λ s. nonempty_or (qt.trimmed (or_else s.manifest_dir folder)) folder)
                kept_settings
              ∙ ap (λ t. nonempty_or t folder) (idem f.manifest_dir)
              ∙ nonempty_or_lem (qt.trimmed f.manifest_dir) folder was.manifests
              ∙ sym (ap (λ v. v.local_manifest_dir) was.result);
        }

  -- Settings that the window reports as saved, on a machine where the first start is over, are those
  -- of the next start: a window that opens on them has the same contribution, size, port, storage
  -- folder and manifests' folder as the window that saved them, where trimming a trimmed text leaves
  -- it as it is.
  pub apply_settings-load_or_prompt :
      (idem : (s : Bytes) → qt.trimmed (qt.trimmed s) ≡ qt.trimmed s)
      → (online : Bytes → ℕ → Bool) (serves can_create : Bytes → Bool) (a : Answers)
        (app_data : Bytes)
      → (f : Form) (w w' next : Window) → w.settings.initialized ≡ some true
      → apply_settings qt online serves can_create f w ≡ some (w', saved)
      → next.settings ≡ w'.settings
      → IsSamePeer (load_or_prompt qt a app_data next) w'
  unfolding load_advertise_ip load_bootstrap_seeds with_form
  apply_settings-load_or_prompt idem online serves can_create a app_data f w w' next init h same =
      let was = apply_settings_inv qt online serves can_create f w w' h in
      let again = restored-IsSamePeer online serves f w w' next was same idem app_data in
      let started : next.settings.initialized ≡ some true =
        ap (λ s. s.initialized) (kept_settings online serves f w w' next was same) ∙ init in
      let loaded : IsSamePeer
          (load_advertise_ip qt (load_bootstrap_seeds qt (restored qt app_data next))) w' =
        record {
          enabled = again.enabled;
          max_bytes = again.max_bytes;
          port = again.port;
          storage_dir = again.storage_dir;
          manifest_dir = again.manifest_dir;
        } in
      subst (λ v. IsSamePeer v w') (sym (load_or_prompt-restored a app_data next started)) loaded
