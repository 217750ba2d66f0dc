-- ===== src/Client/Window/Discovery.antt =====
-- Which peers the window finds.
use s2_decentralised_storage.Prelude.{
  All, ◌≢◌, ℕ, ◌≡◌, refl, ap, sym, ◌∙◌, Bool, true, false, ◌&&◌, ◌||◌, ite, if_pos, List, [], ◌∷◌,
  ◌++◌, map, Bytes, arith, Bool-cases, inl, inr, ◌⊎◌, ◌↔◌, bytes_discrete, if◌then◌else◌,
}
use s2_decentralised_storage.Cpp.Int.{to_string_int}
use s2_decentralised_storage.Dht.Id.{PeerEndpoint}
use s2_decentralised_storage.Net.Connect.{to_u16}
use s2_decentralised_storage.Net.Endpoint.{Parsed, parsed, invalid, parse_peer_entry}
use s2_decentralised_storage.Tracker.{entry, is_in}
use s2_decentralised_storage.Tracker.Invariant.{NoDup}
use s2_decentralised_storage.Client.Qt.{Qt, IsQt}
use s2_decentralised_storage.Client.Window.{
  shown_peer, Window, is_running, is_positive, push_online, push_seed, online_seeds, with_local,
  merged_peers,
}

-- Whether the window contributes storage at the moment.
abbrev pub contributes : Window → Bool
contributes w = w.peer_enabled && is_running w.embedded_peer_service

is_in-snoc :
    (e x : Bytes) (l : List Bytes)
    → is_in e (l ++ x ∷ []) ≡ is_in e l || ite (bytes_discrete e x) true false
unfolding is_in
is_in-snoc e x [] = refl
is_in-snoc e x (a ∷ l) = ground (arith, is_in-snoc e x l)

is_in_same :
    (e x : Bytes) (l : List Bytes)
    → is_in x l ≡ true
    → ite (bytes_discrete e x) true false ≡ true
    → is_in e l ≡ true
is_in_same e x l h k = elim (bytes_discrete e x) [
  | yes p ↦ ap (λ y. is_in y l) p ∙ h
  | no p ↦ absurd (ground (arith, k, p))
]

-- Adding an element that is not there, under a test.
is_in-if :
    (b c : Bool) (e x : Bytes) (l : List Bytes)
    → c ≡ is_in x l
    → is_in e (if b then if c then l else l ++ x ∷ [] else l)
      ≡ is_in e l || b && ite (bytes_discrete e x) true false
is_in-if false c e x l h = ground arith
is_in-if true true e x l h = elim (Bool-cases (ite (bytes_discrete e x) true false)) [
  | inl k ↦ rw (k, is_in_same e x l (sym h) k)
  | inr k ↦ rw k (ground arith)
]
is_in-if true false e x l h = is_in-snoc e x l

-- A host without a percent sign, which Qt takes for the beginning of a marker.
abbrev pub HasPlainHost : Parsed → Type 0
HasPlainHost (invalid m) = Unit {0}
HasPlainHost (parsed ep) = All (λ c. c ≢ b'%') ep.ip

abbrev pub HavePlainHosts : Qt → List Bytes → Type 0
HavePlainHosts qt = All (λ n. HasPlainHost (parse_peer_entry (qt.trimmed n)))

-- Then an address is shown as it is written.
shown_peer-plain :
    (qt : Qt)
    → IsQt qt
    → (ep : PeerEndpoint) → All (λ c. c ≢ b'%') ep.ip
    → shown_peer qt ep ≡ entry ep.ip ep.port
unfolding shown_peer entry
shown_peer-plain qt laws ep h =
    ap (λ s. qt.arg s (to_string_int ep.port)) (laws.arg_first ep.ip)
    ∙ laws.arg_last ep.ip (to_string_int ep.port) h

-- An address of a list of entries that can be reached, on a port above zero.
module _ (online : Bytes → ℕ → Bool) where
  abbrev pub Names : Bytes → Parsed → Type 0
  Names e p =
      (ep : PeerEndpoint) × (p ≡ parsed ep)
      × (is_positive ep.port ≡ true)
      × (online ep.ip (to_u16 ep.port) ≡ true)
      × (e ≡ entry ep.ip ep.port)

  abbrev pub IsNamed : Bytes → List Bytes → Type 0
  IsNamed e [] = ⊥
  IsNamed e (n ∷ ns) = Names e (parse_peer_entry n) ⊎ IsNamed e ns

  module _ (qt : Qt) (laws : IsQt qt) where
    named-push_online :
        (p : Parsed) (e : Bytes) (rest : List Bytes)
        → HasPlainHost p
        → is_in e (push_online qt online p rest) ≡ true
        → Names e p ⊎ (is_in e rest ≡ true)
    unfolding push_online is_in
    named-push_online (invalid m) e rest plain h = inr h
    named-push_online (parsed ep) e rest plain h =
        let same = shown_peer-plain qt laws ep plain in
        elim (Bool-cases (is_positive ep.port && online ep.ip (to_u16 ep.port))) [
          | inl t ↦ elim (bytes_discrete e (entry ep.ip ep.port)) [
            | yes q ↦ inl (ep, refl, ground (arith, t), ground (arith, t), q)
            | no q ↦ inr (ground (arith, same, h, t, q))
          ]
          | inr t ↦ inr (ground (arith, h, t))
        ]

    push_online-named :
        (p : Parsed) (e : Bytes) (rest : List Bytes)
        → HasPlainHost p
        → Names e p ⊎ (is_in e rest ≡ true)
        → is_in e (push_online qt online p rest) ≡ true
    unfolding push_online is_in
    push_online-named (invalid m) e rest plain (inl (q, c, _, _, _)) = absurd (ground (arith, c))
    push_online-named (invalid m) e rest plain (inr h) = h
    push_online-named (parsed ep) e rest plain (inl (q, c, p, o, k)) =
        let same : ep ≡ q = ground (arith, c) in
        let above : is_positive ep.port ≡ true =
          ap (λ (x : PeerEndpoint). is_positive x.port) same ∙ p in
        let reached : online ep.ip (to_u16 ep.port) ≡ true =
          ap (λ (x : PeerEndpoint). online x.ip (to_u16 x.port)) same ∙ o in
        let here : e ≡ entry ep.ip ep.port =
          k ∙ sym (ap (λ (x : PeerEndpoint). entry x.ip x.port) same) in
        rw (above, reached, shown_peer-plain qt laws ep plain)
          (if_pos (bytes_discrete e (entry ep.ip ep.port)) here _ _)
    push_online-named (parsed ep) e rest plain (inr h) = ground (arith, h)

    push_seed_lem :
        (n : Bytes) (rest : List Bytes)
        → push_seed qt online n rest ≡ push_online qt online (parse_peer_entry n) rest
    unfolding push_seed push_online parse_peer_entry
    push_seed_lem [] rest = refl
    push_seed_lem (c ∷ n) rest = refl

    IsNamed-online_seeds :
        (e : Bytes) (ns : List Bytes)
        → HavePlainHosts qt ns
        → is_in e (online_seeds qt online ns) ≡ true
        → IsNamed e (map qt.trimmed ns)
    unfolding online_seeds is_in
    IsNamed-online_seeds e [] _ h = absurd (ground (arith, h))
    IsNamed-online_seeds e (n ∷ ns) (plain, more) h =
        let rest = online_seeds qt online ns in
        let split =
          named-push_online (parse_peer_entry (qt.trimmed n)) e rest plain
            (sym (ap (is_in e) (push_seed_lem (qt.trimmed n) rest)) ∙ h) in
        elim split [ inl k ↦ inl k | inr k ↦ inr (IsNamed-online_seeds e ns more k) ]

    online_seeds-IsNamed :
        (e : Bytes) (ns : List Bytes)
        → HavePlainHosts qt ns
        → IsNamed e (map qt.trimmed ns)
        → is_in e (online_seeds qt online ns) ≡ true
    unfolding online_seeds is_in
    online_seeds-IsNamed e [] _ k = absurd k
    online_seeds-IsNamed e (n ∷ ns) (plain, more) (inl k) =
        ap (is_in e) (push_seed_lem (qt.trimmed n) (online_seeds qt online ns))
        ∙ push_online-named (parse_peer_entry (qt.trimmed n)) e (online_seeds qt online ns) plain
            (inl k)
    online_seeds-IsNamed e (n ∷ ns) (plain, more) (inr k) =
        ap (is_in e) (push_seed_lem (qt.trimmed n) (online_seeds qt online ns))
        ∙ push_online-named (parse_peer_entry (qt.trimmed n)) e (online_seeds qt online ns) plain
            (inr (online_seeds-IsNamed e ns more k))

module _ (qt : Qt) (laws : IsQt qt) (online : Bytes → ℕ → Bool) where
  is_in-with_local :
      (w : Window) (l : List Bytes) (e : Bytes)
      → is_in e (with_local qt online w l)
        ≡ is_in e l
          || contributes w
            && ite (bytes_discrete e (entry w.peer_advertise_ip w.peer_port)) true false
  unfolding with_local
  is_in-with_local w l e =
      let here = entry w.peer_advertise_ip w.peer_port in
      is_in-if (contributes w) (qt.contains l here) e here l (laws.contains_lem l here)

  found_lem :
      (w : Window) (e : Bytes)
      → is_in e (merged_peers qt online w)
        ≡ is_in e (online_seeds qt online w.bootstrap_nodes)
          || contributes w
            && ite (bytes_discrete e (entry w.peer_advertise_ip w.peer_port)) true false
  unfolding merged_peers
  found_lem w e = laws.same _ e ∙ is_in-with_local w (online_seeds qt online w.bootstrap_nodes) e

  merged_peers-IsNamed :
      (w : Window) (e : Bytes)
      → HavePlainHosts qt w.bootstrap_nodes
      → is_in e (merged_peers qt online w) ≡ true
      → IsNamed online e (map qt.trimmed w.bootstrap_nodes)
        ⊎ (contributes w ≡ true) × (e ≡ entry w.peer_advertise_ip w.peer_port)
  merged_peers-IsNamed w e plain h =
      let seeds = online_seeds qt online w.bootstrap_nodes in
      let both = sym (found_lem w e) ∙ h in
      elim (Bool-cases (is_in e seeds)) [
        | inl k ↦ inl (IsNamed-online_seeds online qt laws e w.bootstrap_nodes plain k)
        | inr k ↦ elim (bytes_discrete e (entry w.peer_advertise_ip w.peer_port)) [
          | yes p ↦ inr (ground (arith, both, k), p)
          | no p ↦ absurd (ground (arith, both, k, p))
        ]
      ]

  IsNamed-merged_peers :
      (w : Window) (e : Bytes)
      → HavePlainHosts qt w.bootstrap_nodes
      → IsNamed online e (map qt.trimmed w.bootstrap_nodes)
        ⊎ (contributes w ≡ true) × (e ≡ entry w.peer_advertise_ip w.peer_port)
      → is_in e (merged_peers qt online w) ≡ true
  IsNamed-merged_peers w e plain (inl k) =
      found_lem w e ∙ rw (online_seeds-IsNamed online qt laws e w.bootstrap_nodes plain k)
  IsNamed-merged_peers w e plain (inr (c, p)) = found_lem w e ∙ ground (arith, c, p)

  -- Where no host of a bootstrap node has a percent sign: the window finds no peer twice, and an
  -- address is among those that it finds exactly if a bootstrap node is an address of that host and
  -- port, with a port above zero, which can be reached, or if it is the window's own and the window
  -- contributes storage with a running peer. `trimmed` is any function; `contains`,
  -- `removeDuplicates` and `arg` behave as documented.
  pub merged_peers_lem :
      (w : Window) (e : Bytes)
      → HavePlainHosts qt w.bootstrap_nodes
      → NoDup (merged_peers qt online w)
        × ((is_in e (merged_peers qt online w) ≡ true) ↔ (
            IsNamed online e (map qt.trimmed w.bootstrap_nodes)
            ⊎ (contributes w ≡ true) × (e ≡ entry w.peer_advertise_ip w.peer_port)))
  merged_peers_lem w e plain = (
    unfold merged_peers in laws.once _,
    (merged_peers-IsNamed w e plain, IsNamed-merged_peers w e plain),
  )
