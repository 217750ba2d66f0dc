-- ===== src/Peer/Lifecycle/Endings.antt =====
-- When a service can be started again and destroyed.
use s2_decentralised_storage.Prelude.{Bool, true, false, ◌≡◌, ◌↔◌, refl, none, some, arith}
use s2_decentralised_storage.Peer.Lifecycle.{
  Thread, absent, starting, looping, ended, Server, System, create, joinable, set_up, launch, start,
  begin, fail, stop, destroy, Step, started, begun, failed, stopped, Reachable, fresh, next,
}

-- A service runs exactly while its thread does.
is_active : Thread → Bool
is_active absent = false
is_active starting = true
is_active looping = true
is_active ended = false

start-running :
    (s : Server) {t : Server}
    → start s ≡ some t
    → s.running ≡ is_active s.thread
    → t.running ≡ is_active t.thread
unfolding start launch joinable is_active
start-running s h r = ground (arith, h, r)

begin-running :
    (sys : System) (s : Server)
    → s.thread ≡ starting
    → s.running ≡ is_active s.thread
    → (begin sys s).running ≡ is_active (begin sys s).thread
unfolding begin set_up is_active
begin-running sys s e r = ground (arith, e, r)

stop-running :
    (s : Server) → s.running ≡ is_active s.thread → (stop s).running ≡ is_active (stop s).thread
unfolding stop is_active
stop-running s r = ground (arith, r)

start-none :
    (s : Server) (t : Thread)
    → s.thread ≡ t
    → s.running ≡ is_active s.thread
    → (start s ≡ none) ↔ (s.thread ≡ ended)
unfolding start launch joinable is_active
start-none s absent e r =
    (λ h. absurd (ground (arith, h, r, e)), λ h. absurd (ground (arith, h, e)))
start-none s starting e r =
    (λ h. absurd (ground (arith, h, r, e)), λ h. absurd (ground (arith, h, e)))
start-none s looping e r =
    (λ h. absurd (ground (arith, h, r, e)), λ h. absurd (ground (arith, h, e)))
start-none s ended e r = (λ h. e, λ h. ground (arith, r, e))

destroy-none :
    (s : Server) (t : Thread)
    → s.thread ≡ t
    → s.running ≡ is_active s.thread
    → (destroy (stop s) ≡ none) ↔ (s.thread ≡ ended)
unfolding destroy stop joinable is_active
destroy-none s absent e r =
    (λ h. absurd (ground (arith, h, r, e)), λ h. absurd (ground (arith, h, e)))
destroy-none s starting e r =
    (λ h. absurd (ground (arith, h, r, e)), λ h. absurd (ground (arith, h, e)))
destroy-none s looping e r =
    (λ h. absurd (ground (arith, h, r, e)), λ h. absurd (ground (arith, h, e)))
destroy-none s ended e r = (λ h. e, λ h. ground (arith, r, e))

Step-running :
    {s t : Server} → Step s t → s.running ≡ is_active s.thread → t.running ≡ is_active t.thread
unfolding is_active
Step-running (started h) r = start-running _ h r
Step-running (begun sys e) r = begin-running sys _ e r
Step-running (failed e) r = unfold fail in refl
Step-running {s} stopped r = stop-running s r

Reachable-running : {s : Server} → Reachable s → s.running ≡ is_active s.thread
unfolding create is_active
Reachable-running fresh = refl
Reachable-running (next r st) = Step-running st (Reachable-running r)

-- In every state that a service can reach its owner may start it again, and may stop and destroy it,
-- exactly if its thread has not ended by itself, as it does when its socket cannot be set up or an
-- exception leaves its loop; then `start` and the destructor call `std::terminate`, even after `stop`.
pub Reachable-endings :
    {s : Server}
    → Reachable s
    → ((start s ≡ none) ↔ (s.thread ≡ ended)) × ((destroy (stop s) ≡ none) ↔ (s.thread ≡ ended))
Reachable-endings {s} r =
    let e = Reachable-running r in (start-none s s.thread refl e, destroy-none s s.thread refl e)
