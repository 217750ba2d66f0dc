-- ===== src/Net/Connect.antt =====
-- src/core/net/tcp.cpp: how a connection is made. The calls of the system are a parameter; a list holds
-- the sockets that the program has not closed, with their options; timeouts are not negative.
pub mod Outcome
use s2_decentralised_storage.Prelude.{
  ◌==◌, ==_iff, All, ◌≢◌, [], false, ap, sym, ◌∙◌, ℕ, ◌+◌, ◌-◌, ◌*◌, ◌/◌, ◌%◌, ◌<◌, ◌≡◌, refl, Bool,
  true, ◌&&◌, Option, none, some, List, ◌∷◌, Bytes, if◌then◌else◌, arith, Bool-cases, inl, inr,
}
use s2_decentralised_storage.Cpp.Int.{ℤ, pos, negsuc}

-- Seconds and microseconds.
pub record Timeval : Type 0 where
  pub sec : ℕ
  pub usec : ℕ

-- An open socket, with the options that were set on it.
pub record Descriptor : Type 0 where
  pub fd : ℕ
  pub recv_timeout : Option Timeval
  pub send_timeout : Option Timeval

-- What the system answers: the number that `socket` gives while some are open, the address of a
-- literal and of a name, whether a socket with its options can be connected to an address and a
-- port, and whether it takes an option.
pub record System : Type 0 where
  pub socket : List Descriptor → Option ℕ
  pub inet_pton : Bytes → Option ℕ
  pub getaddrinfo : Bytes → Option ℕ
  pub connect : Descriptor → ℕ → ℕ → Bool
  pub takes_recv_timeout : ℕ → Timeval → Bool
  pub takes_send_timeout : ℕ → Timeval → Bool

-- `socket` gives a number that is not in use.
pub record IsSystem (sys : System) : Type 0 where
  pub fresh : (ds : List Descriptor) (n : ℕ) → sys.socket ds ≡ some n → All (λ d. d.fd ≢ n) ds

unfoldable pub bare : ℕ → Descriptor
bare n = record { fd = n; recv_timeout = none; send_timeout = none }

-- `close`: no socket of that number is open any more.
unfoldable pub close : ℕ → List Descriptor → List Descriptor
close n [] = []
close n (d ∷ ds) = let rest = close n ds in if d.fd == n then rest else d ∷ rest

-- `setsockopt` on the socket of that number.
unfoldable pub set_option : ℕ → (Descriptor → Descriptor) → List Descriptor → List Descriptor
set_option n f [] = []
set_option n f (d ∷ ds) = (if d.fd == n then f d else d) ∷ set_option n f ds

-- `connect` on the socket of that number.
unfoldable pub connect_fd : System → List Descriptor → ℕ → ℕ → ℕ → Bool
connect_fd sys [] n addr port = false
connect_fd sys (d ∷ ds) n addr port =
    let rest = connect_fd sys ds n addr port in if d.fd == n then sys.connect d addr port else rest

-- `static_cast<uint16_t>(port)`
unfoldable pub to_u16 : ℤ → ℕ
to_u16 (pos n) = n % 65536
to_u16 (negsuc n) = 65535 - n % 65536

unfoldable pub timeval : ℕ → Timeval
timeval ms = record { sec = ms / 1000; usec = (ms % 1000) * 1000 }

-- The second option is not tried where the first is refused.
unfoldable pub set_timeouts : System → ℕ → ℕ → ℕ → List Descriptor → List Descriptor × Bool
unfolding timeval set_option
set_timeouts sys n recv_ms send_ms ds =
    let received = set_option n (λ d. record d { recv_timeout = some (timeval recv_ms) }) ds in
    let both = set_option n (λ d. record d { send_timeout = some (timeval send_ms) }) received in
    if sys.takes_recv_timeout n (timeval recv_ms)
    then if sys.takes_send_timeout n (timeval send_ms) then (both, true) else (received, false)
    else (ds, false)

-- `fill_sockaddr_in_v4`: a literal address, or else a name.
unfoldable pub address_or : Option ℕ → Option ℕ → Option ℕ
address_or none a = a
address_or (some b) a = some b

unfoldable pub fill_sockaddr : System → Bytes → Option ℕ
unfolding address_or
fill_sockaddr sys host = address_or (sys.inet_pton host) (sys.getaddrinfo host)

pub data Failure : Type 0 where
  no_socket refused : Failure
  unresolved : Bytes → Failure

pub data Connected : Type 0 where
  connected : ℕ → Connected
  failed : Failure → Connected

-- `connect_tcp_fatal_or_throw` behind `socket`, for what `fill_sockaddr_in_v4` finds.
unfoldable pub fatal_to :
    System → List Descriptor → ℕ → Bytes → ℤ → Option ℕ → List Descriptor × Connected
unfolding close connect_fd to_u16
fatal_to sys ds n host port none = (close n ds, failed (unresolved host))
fatal_to sys ds n host port (some addr) =
    if connect_fd sys ds n addr (to_u16 port)
    then (ds, connected n)
    else (close n ds, failed refused)

unfoldable pub fatal_on :
    System → List Descriptor → Bytes → ℤ → Option ℕ → List Descriptor × Connected
unfolding fatal_to bare
fatal_on sys ds host port none = (ds, failed no_socket)
fatal_on sys ds host port (some n) = fatal_to sys (bare n ∷ ds) n host port (fill_sockaddr sys host)

-- A failure is what it throws.
unfoldable pub connect_tcp_fatal_or_throw :
    System → List Descriptor → Bytes → ℤ → List Descriptor × Connected
unfolding fatal_on
connect_tcp_fatal_or_throw sys ds host port = fatal_on sys ds host port (sys.socket ds)

-- `connect_tcp_try` behind the timeouts; none is -1.
unfoldable pub try_to : System → List Descriptor → ℕ → ℤ → Option ℕ → List Descriptor × Option ℕ
unfolding close connect_fd to_u16
try_to sys ds n port none = (close n ds, none)
try_to sys ds n port (some addr) =
    if connect_fd sys ds n addr (to_u16 port) then (ds, some n) else (close n ds, none)

-- What comes of the timeouts is not looked at.
unfoldable pub try_on :
    System → List Descriptor → Bytes → ℤ → ℕ → Option ℕ → List Descriptor × Option ℕ
unfolding try_to set_timeouts bare
try_on sys ds host port ms none = (ds, none)
try_on sys ds host port ms (some n) =
    try_to sys (set_timeouts sys n ms ms (bare n ∷ ds)).0 n port (fill_sockaddr sys host)

unfoldable pub connect_tcp_try :
    System → List Descriptor → Bytes → ℤ → ℕ → List Descriptor × Option ℕ
unfolding try_on
connect_tcp_try sys ds host port timeout_ms = try_on sys ds host port timeout_ms (sys.socket ds)
