-- ===== src/Client/Window/Actions.antt =====
-- src/client/main_window.cpp: the clicks, the calls that they queue for the worker, its signals, and the
-- table of peers.
use s2_decentralised_storage.Prelude.{
  ℕ, ◌-◌, Bool, true, false, ◌||◌, Option, none, some, List, [], ◌∷◌, ◌++◌, Bytes, codes, length,
  take, drop, ite, bytes_discrete, ltb, if◌then◌else◌, ◌>>=◌,
}
use s2_decentralised_storage.Cpp.Decimal.{to_string}
use s2_decentralised_storage.Cpp.Int.{pos}
use s2_decentralised_storage.Crypto.Sha256.{Sha256}
use s2_decentralised_storage.Dht.Id as DhtId
use s2_decentralised_storage.Dht.Id.{PeerEndpoint}
use s2_decentralised_storage.FileSystem.{FileSystem}
use s2_decentralised_storage.Manifest as Manifest
use s2_decentralised_storage.Manifest.{Manifest, read_manifest}
use s2_decentralised_storage.Net.Connect.{to_u16}
use s2_decentralised_storage.Net.Endpoint.{Parsed, parsed, invalid, parse_peer_entry}
use s2_decentralised_storage.Storage.{or_else, strip_prefix}
use s2_decentralised_storage.Tracker.{is_empty}
use s2_decentralised_storage.Client.CommandLine.{default_chunk_size}
use s2_decentralised_storage.Client.Qt.{Qt}
use s2_decentralised_storage.Client.Worker.{
  Signal, put_finished, get_finished, repair_finished, error, chunk_size_of,
}
use s2_decentralised_storage.Client.Window.{
  shown_peer, Window, Post, put_file, get_file, repair, Row, discover_peers,
}

-- What a click leads to.
pub data Reaction : Type 0 where
  no_peers no_input ignored started : Reaction

-- `setBusy(true)` and `invokeMethod`.
unfoldable pub post : Post → Window → Window × Reaction
post p w = (record w { busy = true; posted = w.posted ++ p ∷ [] }, started)

-- An unreadable chunk size, and 0, stand for the default.
unfoldable pub chunk_size_or : Option ℕ → ℕ
unfolding chunk_size_of
chunk_size_or none = default_chunk_size
chunk_size_or (some n) = chunk_size_of n

-- `suggested.chop(…)` behind `endsWith`.
unfoldable pub without_suffix : Bytes → Bytes → Bytes
without_suffix suffix s =
    let n = length s - length suffix in
    if ltb (length s) (length suffix)
    then s
    else ite (bytes_discrete (drop n s) suffix) (take n s) s

unfoldable pub suggested_name : Bytes → Bytes
unfolding without_suffix
suggested_name share_id =
    without_suffix (codes ".manifest.txt")
      (or_else (strip_prefix (codes "dss://file/") share_id) share_id)

unfoldable pub row_of : Bytes → Option Manifest → Row
row_of share_id none = record { share_id = share_id; name = codes "(unknown)"; size = codes "-" }
row_of share_id (some m) = record {
  share_id = share_id;
  name = m.original_name;
  size = to_string m.original_size;
}

unfoldable pub manifest_or_none : Manifest.Result Manifest → Option Manifest
manifest_or_none (Manifest.ok m) = some m
manifest_or_none (Manifest.throw e) = none

-- The slots for the worker's signals; a progress signal changes the bar alone.
unfoldable pub on_signal : FileSystem → Signal → Window → Window
unfolding row_of manifest_or_none
on_signal fs (put_finished share_id path) w = record w {
  busy = false;
  files = w.files ++ row_of share_id (manifest_or_none (read_manifest fs path)) ∷ [];
}
on_signal fs (get_finished path) w = record w { busy = false }
on_signal fs repair_finished w = record w { busy = false }
on_signal fs error w = record w { busy = false }

module _ (qt : Qt) where
  -- `trackerIp`
  unfoldable pub tracker_ip : Window → Bytes
  tracker_ip w = qt.trimmed w.discovered_peers_csv

  unfoldable pub chunk_size_text : Bytes → ℕ
  unfolding chunk_size_or
  chunk_size_text [] = default_chunk_size
  chunk_size_text (c ∷ s) = chunk_size_or (qt.to_u64 (c ∷ s))

  -- `onPutClicked` with the texts of the tab.
  unfoldable pub put_clicked : Bytes → Bytes → ℕ → Bytes → Window → Window × Reaction
  unfolding tracker_ip chunk_size_text post
  put_clicked file chunk replicas key w =
      let path = qt.trimmed file in
      if is_empty (tracker_ip w)
      then (w, no_peers)
      else if is_empty path
      then (w, no_input)
      else post
          (put_file (tracker_ip w) path w.local_manifest_dir (chunk_size_text (qt.trimmed chunk))
            (pos replicas) (qt.trimmed key))
          w

  -- `onGetClicked`
  unfoldable pub get_clicked : Bytes → Bytes → Bytes → Window → Window × Reaction
  unfolding tracker_ip post
  get_clicked manifest output key w =
      let ref = qt.trimmed manifest in
      let out = qt.trimmed output in
      if is_empty (tracker_ip w)
      then (w, no_peers)
      else if is_empty ref || is_empty out
      then (w, no_input)
      else post (get_file (tracker_ip w) ref out (qt.trimmed key)) w

  -- `onRepairClicked`
  unfoldable pub repair_clicked : ℕ → ℕ → Window → Window × Reaction
  unfolding tracker_ip post
  repair_clicked replicas batch w =
      if is_empty (tracker_ip w)
      then (w, no_peers)
      else post (repair (tracker_ip w) (pos replicas) (pos batch)) w

  -- `onDownloadButtonClicked`; `choose` is the dialog, which gets a name and gives a path or nothing.
  unfoldable pub download_clicked : (Bytes → Bytes) → Bytes → Bytes → Window → Window × Reaction
  unfolding tracker_ip suggested_name post
  download_clicked choose share_id key w =
      let out = choose (suggested_name share_id) in
      if is_empty share_id
      then (w, ignored)
      else if is_empty (tracker_ip w)
      then (w, no_peers)
      else if is_empty out
      then (w, ignored)
      else post (get_file (tracker_ip w) share_id out (qt.trimmed key)) w

-- A line of the table of peers: the address, whether it can be reached, and 8 digits of its
-- identifier.
pub record PeerRow : Type 0 where
  pub peer : Bytes
  pub is_online : Bool
  pub id_prefix : Bytes

module _ (qt : Qt) (sha : Sha256) (online : Bytes → ℕ → Bool) where
  unfoldable pub peer_row : PeerEndpoint → Option PeerRow
  peer_row ep = do
    id ← DhtId.make_node_id sha ep
    some (record {
      peer = shown_peer qt ep;
      is_online = online ep.ip (to_u16 ep.port);
      id_prefix = take 8 (DhtId.to_hex id);
    })

  -- None is an exception of `makeNodeId`.
  unfoldable pub push_row : Parsed → Option (List PeerRow) → Option (List PeerRow)
  unfolding peer_row
  push_row (invalid message) rest = rest
  push_row (parsed ep) rest = do row ← peer_row ep; rows ← rest; some (row ∷ rows)

  unfoldable pub push_part : Bytes → Option (List PeerRow) → Option (List PeerRow)
  unfolding push_row
  push_part [] rest = rest
  push_part (c ∷ s) rest = push_row (parse_peer_entry (c ∷ s)) rest

  unfoldable pub peer_rows : List Bytes → Option (List PeerRow)
  unfolding push_part
  peer_rows [] = some []
  peer_rows (p ∷ ps) = push_part (qt.trimmed p) (peer_rows ps)

  -- `refreshPeerMonitor`
  unfoldable pub refresh_peer_monitor : Window → Window × Option (List PeerRow)
  unfolding peer_rows
  refresh_peer_monitor w =
      let found = discover_peers qt online w in
      (found, peer_rows (qt.split_commas (tracker_ip qt found)))
