-- ===== src/Net/Connect/Outcome.antt =====
-- src/core/net/tcp.cpp: what the two ways to make a connection leave open.
use s2_decentralised_storage.Prelude.{
  ℕ, ◌+◌, ◌*◌, ◌<◌, ◌≡◌, ◌≢◌, refl, ap, ◌∙◌, true, false, Bool-cases, Option, none, some, List, [],
  ◌∷◌, Bytes, All, ◌⊎◌, if◌then◌else◌, arith, inl, inr,
}
use s2_decentralised_storage.Cpp.Int.{ℤ}
use s2_decentralised_storage.Net.Connect.{
  Descriptor, System, IsSystem, bare, close, set_option, connect_fd, to_u16, timeval, set_timeouts,
  fill_sockaddr, no_socket, refused, unresolved, Connected, connected, failed, fatal_to, fatal_on,
  connect_tcp_fatal_or_throw, try_to, try_on, connect_tcp_try,
}

close-fresh : (n : ℕ) (ds : List Descriptor) → All (λ d. d.fd ≢ n) ds → close n ds ≡ ds
unfolding close
close-fresh n [] h = refl
close-fresh n (d ∷ ds) (ne, h) = ground (arith, ne, close-fresh n ds h)

-- The last socket that was opened is closed.
close-new :
    (n : ℕ) (d : Descriptor) (ds : List Descriptor)
    → d.fd ≡ n
    → All (λ d. d.fd ≢ n) ds
    → close n (d ∷ ds) ≡ ds
unfolding close
close-new n d ds e h = ground (arith, e, close-fresh n ds h)

connect_fd-new :
    (sys : System) (n : ℕ) (d : Descriptor) (ds : List Descriptor) (addr port : ℕ)
    → d.fd ≡ n
    → connect_fd sys (d ∷ ds) n addr port ≡ sys.connect d addr port
unfolding connect_fd
connect_fd-new sys n d ds addr port e = ground (arith, e)

set_option-fresh :
    (n : ℕ) (f : Descriptor → Descriptor) (ds : List Descriptor)
    → All (λ d. d.fd ≢ n) ds
    → set_option n f ds ≡ ds
unfolding set_option
set_option-fresh n f [] h = refl
set_option-fresh n f (d ∷ ds) (ne, h) = ground (arith, ne, set_option-fresh n f ds h)

set_option-new :
    (n : ℕ) (f : Descriptor → Descriptor) (d : Descriptor) (ds : List Descriptor)
    → d.fd ≡ n
    → All (λ d. d.fd ≢ n) ds
    → set_option n f (d ∷ ds) ≡ f d ∷ ds
unfolding set_option
set_option-new n f d ds e h = ground (arith, e, set_option-fresh n f ds h)

-- A new socket with the timeouts that the system takes; the second is not tried without the first.
abbrev pub with_timeouts : System → ℕ → ℕ → Descriptor
with_timeouts sys n ms = record {
  fd = n;
  recv_timeout = if sys.takes_recv_timeout n (timeval ms) then some (timeval ms) else none;
  send_timeout =
      if sys.takes_recv_timeout n (timeval ms)
      then if sys.takes_send_timeout n (timeval ms) then some (timeval ms) else none
      else none;
}

set_timeouts_lem :
    (sys : System) (n ms : ℕ) (ds : List Descriptor)
    → All (λ d. d.fd ≢ n) ds
    → (set_timeouts sys n ms ms (bare n ∷ ds)).0 ≡ with_timeouts sys n ms ∷ ds
unfolding set_timeouts timeval bare
set_timeouts_lem sys n ms ds h =
    let tv = timeval ms in
    let first = λ (d : Descriptor). record d { recv_timeout = some tv } in
    let second = λ (d : Descriptor). record d { send_timeout = some tv } in
    let one = set_option-new n first (bare n) ds refl h in
    elim (Bool-cases (sys.takes_recv_timeout n tv)) [
      | inr no_recv ↦ rw no_recv refl
      | inl recv ↦ elim (Bool-cases (sys.takes_send_timeout n tv)) [
        | inr no_send ↦ rw (recv, no_send) one
        | inl send ↦
            rw (recv, send)
              (ap (set_option n second) one ∙ set_option-new n second (first (bare n)) ds refl h)
      ]
    ]

-- Why a connection was not made, and that nothing more is open; or the one socket that is open,
-- which is connected to the address of the host.
abbrev pub IsClean : System → List Descriptor → Bytes → ℤ → List Descriptor → Connected → Type 0
IsClean sys before host port after (failed no_socket) =
    (after ≡ before) × (sys.socket before ≡ none)
IsClean sys before host port after (failed (unresolved h)) =
    (after ≡ before) × (h ≡ host) × (fill_sockaddr sys host ≡ none)
IsClean sys before host port after (failed refused) =
    (after ≡ before)
    × (n addr : ℕ) × (sys.socket before ≡ some n)
    × (fill_sockaddr sys host ≡ some addr)
    × (sys.connect (bare n) addr (to_u16 port) ≡ false)
IsClean sys before host port after (connected n) =
    (after ≡ bare n ∷ before)
    × (addr : ℕ) × (sys.socket before ≡ some n)
    × (fill_sockaddr sys host ≡ some addr)
    × (sys.connect (bare n) addr (to_u16 port) ≡ true)

-- The same with timeouts, where the reason is not told.
abbrev pub IsTried : System → List Descriptor → Bytes → ℤ → ℕ → List Descriptor → Option ℕ → Type 0
IsTried sys before host port ms after none =
    (after ≡ before)
    × ((sys.socket before ≡ none)
        ⊎ (fill_sockaddr sys host ≡ none)
        ⊎ (n addr : ℕ) × (sys.socket before ≡ some n)
          × (fill_sockaddr sys host ≡ some addr)
          × (sys.connect (with_timeouts sys n ms) addr (to_u16 port) ≡ false))
IsTried sys before host port ms after (some n) =
    (after ≡ with_timeouts sys n ms ∷ before)
    × (addr : ℕ) × (sys.socket before ≡ some n)
    × (fill_sockaddr sys host ≡ some addr)
    × (sys.connect (with_timeouts sys n ms) addr (to_u16 port) ≡ true)

fatal_to_lem :
    (sys : System) (before : List Descriptor) (n : ℕ) (host : Bytes) (port : ℤ) (a : Option ℕ)
    → sys.socket before ≡ some n
    → All (λ d. d.fd ≢ n) before
    → fill_sockaddr sys host ≡ a
    → (let (after, c) = fatal_to sys (bare n ∷ before) n host port a in
        IsClean sys before host port after c)
unfolding fatal_to bare
fatal_to_lem sys before n host port none s h e = (close-new n (bare n) before refl h, refl, e)
fatal_to_lem sys before n host port (some addr) s h e =
    let new = connect_fd-new sys n (bare n) before addr (to_u16 port) refl in
    elim (Bool-cases (sys.connect (bare n) addr (to_u16 port))) [
      | inl made ↦ rw (new, made) (refl, addr, s, e, made)
      | inr bad ↦ rw (new, bad) (close-new n (bare n) before refl h, n, addr, s, e, bad)
    ]

try_to_lem :
    (sys : System) (before : List Descriptor) (n : ℕ) (host : Bytes) (port : ℤ) (ms : ℕ)
    (a : Option ℕ)
    → sys.socket before ≡ some n
    → All (λ d. d.fd ≢ n) before
    → fill_sockaddr sys host ≡ a
    → (let (after, r) = try_to sys (with_timeouts sys n ms ∷ before) n port a in
        IsTried sys before host port ms after r)
unfolding try_to
try_to_lem sys before n host port ms none s h e =
    (close-new n (with_timeouts sys n ms) before refl h, inr (inl e))
try_to_lem sys before n host port ms (some addr) s h e =
    let new = connect_fd-new sys n (with_timeouts sys n ms) before addr (to_u16 port) refl in
    elim (Bool-cases (sys.connect (with_timeouts sys n ms) addr (to_u16 port))) [
      | inl made ↦ rw (new, made) (refl, addr, s, e, made)
      | inr bad ↦
          rw (new, bad)
            (close-new n (with_timeouts sys n ms) before refl h, inr (inr (n, addr, s, e, bad)))
    ]

module _ (sys : System) (law : IsSystem sys) where
  fatal_on_lem :
      (before : List Descriptor) (host : Bytes) (port : ℤ) (s : Option ℕ)
      → sys.socket before ≡ s
      → (let (after, c) = fatal_on sys before host port s in IsClean sys before host port after c)
  unfolding fatal_on
  fatal_on_lem before host port none e = (refl, e)
  fatal_on_lem before host port (some n) e =
      fatal_to_lem sys before n host port (fill_sockaddr sys host) e (law.fresh before n e) refl

  try_on_lem :
      (before : List Descriptor) (host : Bytes) (port : ℤ) (ms : ℕ) (s : Option ℕ)
      → sys.socket before ≡ s
      → (let (after, r) = try_on sys before host port ms s in
          IsTried sys before host port ms after r)
  unfolding try_on
  try_on_lem before host port ms none e = (refl, inl e)
  try_on_lem before host port ms (some n) e =
      let fresh = law.fresh before n e in
      rw (set_timeouts_lem sys n ms before fresh)
        (try_to_lem sys before n host port ms (fill_sockaddr sys host) e fresh refl)

  -- Where `socket` gives a number that is not in use: a connection that cannot be made leaves the
  -- same sockets open as before, whichever step failed, and the exception tells which; one that is
  -- made leaves one more open, connected to the address of the host. `connect_tcp_try` does so too,
  -- on a socket that already has the timeouts which the system takes when it is connected, and
  -- returns -1 exactly where there is no socket, no address or no connection.
  pub connect_tcp_fatal_or_throw_lem :
      (before : List Descriptor) (host : Bytes) (port : ℤ) (ms : ℕ)
      → (let (after, c) = connect_tcp_fatal_or_throw sys before host port in
          IsClean sys before host port after c)
        × (let (after, r) = connect_tcp_try sys before host port ms in
            IsTried sys before host port ms after r)
  unfolding connect_tcp_fatal_or_throw connect_tcp_try
  connect_tcp_fatal_or_throw_lem before host port ms = (
    fatal_on_lem before host port (sys.socket before) refl,
    try_on_lem before host port ms (sys.socket before) refl,
  )

-- A timeout in milliseconds is kept whole, with fewer than a million microseconds.
pub timeval_lem :
    (ms : ℕ)
    → ((timeval ms).usec < 1000000) × ((timeval ms).sec * 1000000 + (timeval ms).usec ≡ ms * 1000)
unfolding timeval
timeval_lem ms = (omega arith, omega arith)
