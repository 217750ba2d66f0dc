-- ===== src/Dss/Candidates.antt =====
-- Every peer of the configuration is tried in the end.
use s2_decentralised_storage.Prelude.{
  ◌≡◌, subst, sym, ◌∙◌, true, List, [], ◌∷◌, ◌++◌, append_assoc, append-nil, All, arith, Bool-cases,
  inl, inr,
}
use s2_decentralised_storage.Cpp.Int.{ℤ, pos, negsuc}
use s2_decentralised_storage.Dht.Id.{PeerEndpoint}
use s2_decentralised_storage.Dss.{same_int, same_endpoint, is_candidate, with_all_peers}

same_int_refl : (n : ℤ) → same_int n n ≡ true
unfolding same_int
same_int_refl (pos n) = ground arith
same_int_refl (negsuc n) = ground arith

same_endpoint_refl : (p : PeerEndpoint) → same_endpoint p p ≡ true
unfolding same_endpoint
same_endpoint_refl p = ground (arith, same_int_refl p.port)

is_candidate-append :
    (p q : PeerEndpoint) (cs : List PeerEndpoint)
    → is_candidate p cs ≡ true
    → is_candidate p (cs ++ q ∷ []) ≡ true
unfolding is_candidate
is_candidate-append p q [] h = absurd (ground (arith, h))
is_candidate-append p q (c ∷ cs) h = ground (arith, h, is_candidate-append p q cs)

is_candidate-last :
    (p : PeerEndpoint) (cs : List PeerEndpoint) → is_candidate p (cs ++ p ∷ []) ≡ true
unfolding is_candidate
is_candidate-last p [] = ground (arith, same_endpoint_refl p)
is_candidate-last p (c ∷ cs) = ground (arith, is_candidate-last p cs)

-- A candidate stays one.
is_candidate-with_all_peers :
    (p : PeerEndpoint) (cs ps : List PeerEndpoint)
    → is_candidate p cs ≡ true
    → is_candidate p (with_all_peers cs ps) ≡ true
unfolding with_all_peers
is_candidate-with_all_peers p cs [] h = h
is_candidate-with_all_peers p cs (q ∷ ps) h = elim (Bool-cases (is_candidate q cs)) [
  | inl known ↦ rw (known, with_all_peers) (is_candidate-with_all_peers p cs ps h)
  | inr new ↦
      rw (new, with_all_peers)
        (is_candidate-with_all_peers p (cs ++ q ∷ []) ps (is_candidate-append p q cs h))
]

-- A list that begins with the candidates and has every peer.
abbrev Covers : List PeerEndpoint → List PeerEndpoint → List PeerEndpoint → Type 0
Covers cs ps l =
    ((more : List PeerEndpoint) × (l ≡ cs ++ more)) × All (λ p. is_candidate p l ≡ true) ps

-- The candidates begin with those that the DHT named, and every peer of the configuration is one.
pub with_all_peers_lem :
    (cs ps : List PeerEndpoint)
    → ((more : List PeerEndpoint) × (with_all_peers cs ps ≡ cs ++ more))
      × All (λ p. is_candidate p (with_all_peers cs ps) ≡ true) ps
unfolding with_all_peers
with_all_peers_lem cs [] = (([], sym (append-nil cs)), tt)
with_all_peers_lem cs (q ∷ ps) = elim (Bool-cases (is_candidate q cs)) [
  | inl known ↦
      let step : with_all_peers cs (q ∷ ps) ≡ with_all_peers cs ps = rw (known, with_all_peers) in
      let (begins, all) = with_all_peers_lem cs ps in
      subst (Covers cs (q ∷ ps)) (sym step)
        (begins, (is_candidate-with_all_peers q cs ps known, all))
  | inr new ↦
      let step : with_all_peers cs (q ∷ ps) ≡ with_all_peers (cs ++ q ∷ []) ps =
        rw (new, with_all_peers) in
      let ((more, e), all) = with_all_peers_lem (cs ++ q ∷ []) ps in
      subst (Covers cs (q ∷ ps)) (sym step) (
        (q ∷ more, e ∙ append_assoc cs (q ∷ []) more),
        (is_candidate-with_all_peers q (cs ++ q ∷ []) ps (is_candidate-last q cs), all),
      )
]
