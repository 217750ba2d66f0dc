-- ===== src/Tests/Programs.antt =====
-- Addresses, connections, the life of a service and the client programs.
use s2_decentralised_storage.Prelude.{
  ℕ, ◌+◌, ◌≤◌, ◌≢◌, false, List, All, ◌≡◌, ◌↔◌, refl, true, false, none, some, [], ◌∷◌, ◌++◌, map,
  Bytes, codes, arith,
}
use s2_decentralised_storage.Cpp.Stream.{is_space, IsWord}
use s2_decentralised_storage.Cpp.Decimal.{to_string, print_loop}
use s2_decentralised_storage.Cpp.Int.{pos, to_string_int}
use s2_decentralised_storage.Dht.Id.{PeerEndpoint}
use s2_decentralised_storage.Net.Endpoint.{parsed, is_blank, after_tcp, parse_peer_entry}
use s2_decentralised_storage.Net.Endpoint.RoundTrip.{parse_peer_entry-entry}
use s2_decentralised_storage.Net.Connect as Connect
use s2_decentralised_storage.Net.Connect.Outcome.{IsClean, IsTried, connect_tcp_fatal_or_throw_lem}
use s2_decentralised_storage.Peer.Lifecycle as Lifecycle
use s2_decentralised_storage.Peer.Lifecycle.Endings.{Reachable-endings}
use s2_decentralised_storage.Tracker.{entry}
use s2_decentralised_storage.FileSystem.{FileSystem}
use s2_decentralised_storage.Client.CommandLine.{main}
use s2_decentralised_storage.Client.Worker.{put_file_slot, get_file_slot}
use s2_decentralised_storage.Client.Worker.Agreement.{told, slots-main}
use s2_decentralised_storage.Tests.Keys.{toy_sha, toy_ssl}
use s2_decentralised_storage.Tests.Download.{call, any_size}
use s2_decentralised_storage.Client.Peers.Agreement.{IsListed, join, print, parse_peers-join}

abbrev pub host : Bytes
host = codes "h.x"

host-IsWord : IsWord host
unfolding is_space
host-IsWord = record { nonempty = λ e. cc; graph = (refl, (refl, (refl, tt))) }

host-bare : after_tcp (entry host (pos 91)) ≡ none
unfolding after_tcp entry to_string_int to_string print_loop
host-bare = refl

parse_peer_entry-entry_example :
    (parse_peer_entry (codes " " ++ (entry host (pos 91) ++ codes "\n"))
      ≡ parsed (record { ip = host; port = pos 91 }))
    × (parse_peer_entry (codes " " ++ (codes "tcp://" ++ entry host (pos 91) ++ codes "\n"))
        ≡ parsed (record { ip = host; port = pos 91 }))
unfolding is_blank
parse_peer_entry-entry_example =
    parse_peer_entry-entry (codes " ") (codes "\n") host (pos 91) (refl, tt) (refl, tt) host-IsWord
      (omega arith) host-bare

abbrev pub peer : PeerEndpoint
peer = record { ip = host; port = pos 91 }

pub peer-IsListed : IsListed peer
peer-IsListed = record {
  word = host-IsWord;
  plain = ((λ e. omega (arith, e)), ((λ e. omega (arith, e)), ((λ e. omega (arith, e)), tt)));
  port = omega arith;
  bare = host-bare;
}

-- The number above all that are in use.
abbrev above : List Connect.Descriptor → ℕ
above [] = 0
above (d ∷ ds) = d.fd + 1 + above ds

above-fresh : (ds : List Connect.Descriptor) (n : ℕ) → above ds ≤ n → All (λ d. d.fd ≢ n) ds
above-fresh [] n h = tt
above-fresh (d ∷ ds) n h = ((λ e. omega (arith, e, h)), above-fresh ds n (omega (arith, h)))

-- A system where a name is resolved, a socket takes one of the timeouts, and a connection is
-- refused unless it has a timeout.
abbrev picky : Connect.System
picky = record {
  socket = λ ds. some (above ds);
  inet_pton = λ h. none;
  getaddrinfo = λ h. some 1;
  connect = λ d addr port. elim d.recv_timeout [ none ↦ false | some tv ↦ true ];
  takes_recv_timeout = λ fd t. true;
  takes_send_timeout = λ fd t. false;
}

picky-IsSystem : Connect.IsSystem picky
picky-IsSystem = record { fresh = λ ds n h. above-fresh ds n (ground (arith, h)) }

abbrev in_use : List Connect.Descriptor
in_use = record { fd = 3; recv_timeout = none; send_timeout = none } ∷ []

connect_tcp_fatal_or_throw_lem_example :
    (let (after, c) = Connect.connect_tcp_fatal_or_throw picky in_use host (pos 91) in
      IsClean picky in_use host (pos 91) after c)
    × (let (after, r) = Connect.connect_tcp_try picky in_use host (pos 91) 100 in
        IsTried picky in_use host (pos 91) 100 after r)
connect_tcp_fatal_or_throw_lem_example =
    connect_tcp_fatal_or_throw_lem picky picky-IsSystem in_use host (pos 91) 100

-- A service whose port is taken.
abbrev port_taken : Lifecycle.System
port_taken = record { socket_ok = true; bind_ok = false; listen_ok = true }

abbrev pub launched : Lifecycle.Server
launched = record { running = true; listening = false; thread = Lifecycle.starting }

launches : Lifecycle.start Lifecycle.create ≡ some launched
unfolding Lifecycle.start Lifecycle.create
launches = refl

Reachable-endings_example :
    ((Lifecycle.start (Lifecycle.begin port_taken launched) ≡ none)
      ↔ ((Lifecycle.begin port_taken launched).thread ≡ Lifecycle.ended))
    × ((Lifecycle.destroy (Lifecycle.stop (Lifecycle.begin port_taken launched)) ≡ none)
        ↔ ((Lifecycle.begin port_taken launched).thread ≡ Lifecycle.ended))
Reachable-endings_example = Reachable-endings (
    Lifecycle.next (Lifecycle.next Lifecycle.fresh (Lifecycle.started launches))
      (Lifecycle.begun port_taken refl))

abbrev peers : Bytes
peers = join (map print (peer ∷ []))

abbrev pub disk : FileSystem
disk = record {
  files = (codes "f", codes "abc") ∷ [];
  can_write = λ _. true;
  can_rename = λ _ _. true;
  can_remove = λ _. true;
  is_dir = λ _. true;
  absolute = λ p. p;
}

abbrev as_it_is : Bytes → Bytes
as_it_is s = s

slots-main_example :
    (put_file_slot as_it_is toy_sha toy_ssl call any_size 0 disk peers
        (codes "f")
        (codes "d")
        2
        (pos 1)
        (codes "k")
      ≡ told (
          main toy_sha toy_ssl call any_size 0 disk (some (codes "d")) (
            codes "put"
            ∷ peers
            ∷ codes "f"
            ∷ to_string 2
            ∷ to_string_int (pos 1)
            ∷ codes "k"
            ∷ [])))
    × (get_file_slot as_it_is toy_sha toy_ssl call any_size 0 disk peers
          (codes "r")
          (codes "o")
          (codes "k")
        ≡ told (
            main toy_sha toy_ssl call any_size 0 disk
              (some (codes "d"))
              (codes "get" ∷ peers ∷ codes "r" ∷ codes "o" ∷ codes "k" ∷ [])))
slots-main_example =
    slots-main as_it_is toy_sha toy_ssl call any_size 0 disk peers (codes "f") (codes "r")
      (codes "o") (codes "d") (codes "k") (peer ∷ []) 2 1
      (parse_peers-join peer [] (peer-IsListed, tt)).0 (omega arith) (omega arith) (omega arith)
      (omega arith) refl
