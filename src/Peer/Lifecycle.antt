-- ===== src/Peer/Lifecycle.antt =====
-- src/core/peer/peer_service.h and .cpp: how a service starts and stops. The calls of the system are
-- parameters; the loop over the connections is in Peer.Service.
pub mod Endings
use s2_decentralised_storage.Prelude.{ℕ, Bool, true, false, ◌≡◌, Option, none, some, if◌then◌else◌}

-- What `worker_` is: no thread, one that has not set up its socket yet, one in the loop, or one that
-- is over but was not joined.
pub data Thread : Type 0 where
  absent starting looping ended : Thread

-- `running_`, whether `listenFd_` is a socket, and `worker_`.
pub record Server : Type 0 where
  pub running : Bool
  pub listening : Bool
  pub thread : Thread

-- Whether `socket`, `bind` and `listen` succeed.
pub record System : Type 0 where
  pub socket_ok : Bool
  pub bind_ok : Bool
  pub listen_ok : Bool

unfoldable pub create : Server
create = record { running = false; listening = false; thread = absent }

unfoldable pub joinable : Thread → Bool
joinable absent = false
joinable starting = true
joinable looping = true
joinable ended = true

-- `runLoop` up to its loop: the service, and whether the loop is reached; otherwise it throws.
unfoldable pub set_up : System → Server → Server × Bool
set_up sys s =
    if sys.socket_ok
    then if sys.bind_ok
      then if sys.listen_ok
        then (record s { listening = true }, true)
        else (record s { listening = false; running = false }, false)
      else (record s { listening = false; running = false }, false)
    else (record s { running = false }, false)

-- `worker_ = std::thread(…)`; none is `std::terminate`, for a thread that was not joined.
unfoldable pub launch : Server → Option Server
unfolding joinable
launch s = if joinable s.thread then none else some (record s { thread = starting })

unfoldable pub start : Server → Option Server
unfolding launch
start s = if s.running then some s else launch (record s { running = true })

-- The thread sets up its socket. The `catch` of `start` ends it if that throws.
unfoldable pub begin : System → Server → Server
unfolding set_up
begin sys s =
    let (t, reached) = set_up sys s in
    if reached then record t { thread = looping } else record t { running = false; thread = ended }

-- An exception leaves the loop of the thread.
unfoldable pub fail : Server → Server
fail s = record s { running = false; thread = ended }

-- Closing the socket ends the loop, and the thread is joined.
unfoldable pub stop : Server → Server
stop s = if s.running then record s { running = false; listening = false; thread = absent } else s

-- The destructor; none is `std::terminate`.
unfoldable pub destroy : Server → Option (Unit {0})
unfolding joinable
destroy s = if joinable s.thread then none else some tt

-- What can happen to a service: its owner calls it, and its thread goes on.
pub data Step (s : Server) : Server → Type 0 where
  started : {t : Server} → start s ≡ some t → Step s t
  begun : (sys : System) → s.thread ≡ starting → Step s (begin sys s)
  failed : s.thread ≡ looping → Step s (fail s)
  stopped : Step s (stop s)

pub data Reachable : Server → Type 0 where
  fresh : Reachable create
  next : {s t : Server} → Reachable s → Step s t → Reachable t
