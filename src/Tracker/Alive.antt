-- ===== src/Tracker/Alive.antt =====
-- Which peers are alive, and what pruning does to the map of the peers.
use s2_decentralised_storage.Prelude.{
  ℕ, ◌-◌, ◌≡◌, ◌≢◌, refl, subst, sym, ap, ◌∙◌, Bool, true, false, not, if_pos, if_neg, Option, none,
  some, List, [], ◌∷◌, Bytes, leb, if◌then◌else◌, bytes_discrete, lookup, arith, Bool-cases,
  Option-cases, inl, inr,
}
use s2_decentralised_storage.Prelude.Assoc.{Distinct}
use s2_decentralised_storage.Tracker.{
  PeerInfo, Peers, ttl, is_stale, filter, prune_stale, dead_of, is_in, is_alive,
}

module _ {V : Type 0} (p : Bytes × V → Bool) where
  -- What an association list that a test has filtered holds.
  unfoldable pub kept : Bytes → Option V → Option V
  kept k none = none
  kept k (some v) = if p (k, v) then some v else none

  pub lookup-filter-none :
      (k : Bytes) (m : List (Bytes × V))
      → lookup bytes_discrete k m ≡ none
      → lookup bytes_discrete k (filter p m) ≡ none
  unfolding lookup filter
  lookup-filter-none k [] h = refl
  lookup-filter-none k ((j, v) ∷ m) h = ground (arith, lookup-filter-none k m)

  lookup-filter_self :
      (j : Bytes) (v : V) (m : List (Bytes × V))
      → lookup bytes_discrete j m ≡ none
      → lookup bytes_discrete j (filter p ((j, v) ∷ m))
        ≡ kept j (lookup bytes_discrete j ((j, v) ∷ m))
  unfolding lookup filter kept
  lookup-filter_self j v m absent = ground (arith, lookup-filter-none j m absent)

  pub lookup-filter :
      (k : Bytes) (m : List (Bytes × V))
      → Distinct bytes_discrete m
      → lookup bytes_discrete k (filter p m) ≡ kept k (lookup bytes_discrete k m)
  unfolding lookup filter kept
  lookup-filter k [] d = refl
  lookup-filter k ((j, v) ∷ m) (absent, d) = elim (bytes_discrete k j) [
    | yes e ↦
        subst
          (λ i.
            lookup bytes_discrete i (filter p ((j, v) ∷ m))
            ≡ kept i (lookup bytes_discrete i ((j, v) ∷ m)))
          (sym e) (lookup-filter_self j v m absent)
    | no ne ↦ ground (arith, lookup-filter k m d)
  ]

fresh_lem :
    (now : ℕ) (i : PeerInfo)
    → elim (if not (is_stale now i) then some i else none) as (λ _. Bool) [
      | none ↦ false
      | some j ↦ leb (now - j.last_seen) ttl
    ]
      ≡ leb (now - i.last_seen) ttl
unfolding is_stale
fresh_lem now i = ground arith

-- Pruning changes no peer's being alive.
pub is_alive-prune_stale :
    (now : ℕ) (peers : Peers) (e : Bytes)
    → Distinct bytes_discrete peers
    → is_alive now (prune_stale now peers) e ≡ is_alive now peers e
unfolding is_alive prune_stale kept
is_alive-prune_stale now peers e d =
    let k = lookup-filter (λ kv. not (is_stale now kv.1)) e peers d in
    elim (Option-cases (lookup bytes_discrete e peers)) [
      | inl n ↦ rw (is_alive, prune_stale, k, n, kept)
      | inr (i, s) ↦ rw (is_alive, prune_stale, k, s, kept) (fresh_lem now i)
    ]

skip_dead :
    (now : ℕ) (j e : Bytes) (i : PeerInfo) (peers : Peers)
    → e ≢ j
    → is_in e (dead_of now ((j, i) ∷ peers)) ≡ true
    → is_in e (dead_of now peers) ≡ true
unfolding dead_of is_in filter
skip_dead now j e i peers ne h = ground (arith, h)

-- A key that the rest of the map does not have is not among its dead.
absent_dead :
    (now : ℕ) (e : Bytes) (peers : Peers)
    → lookup bytes_discrete e peers ≡ none
    → is_in e (dead_of now peers) ≡ false
unfolding dead_of is_in filter lookup
absent_dead now e [] h = refl
absent_dead now e ((j, i) ∷ peers) h = ground (arith, absent_dead now e peers)

own_dead :
    (now : ℕ) (j e : Bytes) (i : PeerInfo) (peers : Peers)
    → e ≡ j
    → lookup bytes_discrete j peers ≡ none
    → Distinct bytes_discrete peers
    → is_in e (dead_of now ((j, i) ∷ peers)) ≡ true
    → (k : PeerInfo) × (some i ≡ some k) × (is_stale now k ≡ true)
unfolding dead_of is_in filter
own_dead now j e i peers p absent d h = elim (Bool-cases (is_stale now i)) [
  | inl s ↦ (i, refl, s)
  | inr s ↦
      let gone : is_in e (dead_of now peers) ≡ false =
        absent_dead now e peers (ap (λ k. lookup bytes_discrete k peers) p ∙ absent) in
      absurd (ground arith)
]

dead_lookup :
    (now : ℕ) (peers : Peers) (e : Bytes)
    → Distinct bytes_discrete peers
    → is_in e (dead_of now peers) ≡ true
    → (i : PeerInfo) × (lookup bytes_discrete e peers ≡ some i) × (is_stale now i ≡ true)
unfolding dead_of is_in filter lookup
dead_lookup now [] e d h = absurd (ground arith)
dead_lookup now ((j, i) ∷ peers) e (absent, d) h = elim (bytes_discrete e j) [
  | yes p ↦ rw (if_pos (bytes_discrete e j) p) (own_dead now j e i peers p absent d h)
  | no ne ↦
      let later : is_in e (dead_of now peers) ≡ true = skip_dead now j e i peers ne h in
      rw (if_neg (bytes_discrete e j) ne) (dead_lookup now peers e d later)
]

-- A peer that is alive is not among the dead.
pub is_alive-dead_of :
    (now : ℕ) (peers : Peers) (e : Bytes)
    → Distinct bytes_discrete peers
    → is_in e (dead_of now peers) ≡ true
    → is_alive now peers e ≡ false
unfolding is_alive is_stale
is_alive-dead_of now peers e d h =
    let (i, found, stale) = dead_lookup now peers e d h in rw (is_alive, found) (ground arith)
