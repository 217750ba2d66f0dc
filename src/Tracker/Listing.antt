-- ===== src/Tracker/Listing.antt =====
-- What GET_PEERS answers.
use s2_decentralised_storage.Prelude.{
  ℕ, ◌-◌, ◌≡◌, refl, sym, subst, ap, ◌∙◌, not, none, some, [], ◌∷◌, map, Bytes, leb, if◌then◌else◌,
  bytes_discrete, lookup, arith, Option-cases, inl, inr,
}
use s2_decentralised_storage.Prelude.Assoc.{Distinct}
use s2_decentralised_storage.Storage.{is_found}
use s2_decentralised_storage.Tracker.{
  PeerInfo, Peers, Tracker, ttl, is_stale, prune_stale, is_in, is_alive, prune_stale_and_cleanup,
  get_peers, lines, or_newline,
}
use s2_decentralised_storage.Tracker.Alive.{kept, lookup-filter, is_alive-prune_stale}
use s2_decentralised_storage.Tracker.Invariant.{NoDup, filter-Distinct}
use s2_decentralised_storage.Tracker.Locations.{peers-prune}

is_in-names :
    (e : Bytes) (peers : Peers)
    → is_in e (map (λ kv. kv.0) peers) ≡ is_found (lookup bytes_discrete e peers)
unfolding is_in is_found lookup
is_in-names e [] = refl
is_in-names e ((j, i) ∷ peers) = ground (arith, is_in-names e peers)

fresh_lem :
    (now : ℕ) (i : PeerInfo)
    → is_found (if not (is_stale now i) then some i else none) ≡ leb (now - i.last_seen) ttl
unfolding is_stale is_found
fresh_lem now i = ground arith

found-prune_stale :
    (now : ℕ) (peers : Peers) (e : Bytes)
    → Distinct bytes_discrete peers
    → is_found (lookup bytes_discrete e (prune_stale now peers)) ≡ is_alive now peers e
unfolding is_alive prune_stale kept is_found
found-prune_stale now peers e d =
    let k = lookup-filter (λ kv. not (is_stale now kv.1)) e peers d in
    elim (Option-cases (lookup bytes_discrete e peers)) [
      | inl n ↦ rw (is_alive, prune_stale, k, n, kept, is_found)
      | inr (i, s) ↦ rw (is_alive, prune_stale, k, s, kept) (fresh_lem now i)
    ]

names-NoDup : (peers : Peers) → Distinct bytes_discrete peers → NoDup (map (λ kv. kv.0) peers)
unfolding is_found
names-NoDup [] d = tt
names-NoDup ((j, i) ∷ peers) (new, d) = (is_in-names j peers ∙ ap is_found new, names-NoDup peers d)

-- In a tracker that knows no peer twice, GET_PEERS keeps as known, and prints one to a line in its
-- answer, each once, exactly the peers that were seen in the last 30 seconds; the answer is an empty
-- line if there are none.
pub get_peers_lem :
    (now : ℕ) (t : Tracker)
    → Distinct bytes_discrete t.peers
    → (let names = map (λ kv. kv.0) (get_peers now t).0.peers in
        ((get_peers now t).1 ≡ or_newline (lines names))
        × NoDup names
        × ((e : Bytes) → is_in e names ≡ is_alive now t.peers e))
unfolding get_peers
get_peers_lem now t d =
    let once = prune_stale now t.peers in
    let once-Distinct : Distinct bytes_discrete once =
      unfold prune_stale in filter-Distinct (λ kv. not (is_stale now kv.1)) t.peers d in
    let twice-Distinct : Distinct bytes_discrete (prune_stale now once) =
      unfold prune_stale in filter-Distinct (λ kv. not (is_stale now kv.1)) once once-Distinct in
    (
      refl,
      names-NoDup _ (
          subst (λ p. Distinct bytes_discrete (prune_stale now p)) (sym (peers-prune now t))
            twice-Distinct),
      λ e.
          is_in-names e (prune_stale now (prune_stale_and_cleanup now t).peers)
          ∙ ap (λ p. is_found (lookup bytes_discrete e (prune_stale now p))) (peers-prune now t)
          ∙ found-prune_stale now once e once-Distinct
          ∙ is_alive-prune_stale now t.peers e d,
    )
