-- ===== src/Tracker/Invariant.antt =====
-- The well-formed states of a tracker, and what keeps them.
use s2_decentralised_storage.Prelude.{
  ℕ, ◌≡◌, refl, sym, subst, ◌∙◌, Bool, true, false, not, if_pos, if_neg, some, List, [], ◌∷◌, Bytes,
  bytes_discrete, lookup, All, arith, Bool-cases, Option-cases, inl, inr,
}
use s2_decentralised_storage.Prelude.Assoc.{assign, Distinct}
use s2_decentralised_storage.Tracker.{
  Peers, ChunkIndex, Tracker, filter, prune_stale, dead_of, is_in, is_empty, without_dead, cleaned,
  prune_stale_and_cleanup, insert_location, locations,
}
use s2_decentralised_storage.Tracker.Alive.{lookup-filter-none}
use s2_decentralised_storage.Tracker.Locations.{without_dead-Distinct}

-- A set of locations: none stands twice.
abbrev pub NoDup : List Bytes → Type 0
NoDup [] = Unit {0}
NoDup (l ∷ ls) = (is_in l ls ≡ false) × NoDup ls

-- Every chunk in the index has a location.
abbrev pub IsLocated : Bytes × List Bytes → Type 0
IsLocated kv = NoDup kv.1 × (is_empty kv.1 ≡ false)

pub record IsValid (t : Tracker) : Type 0 where
  pub peers_once : Distinct bytes_discrete t.peers
  pub chunks_once : Distinct bytes_discrete t.chunk_index
  pub located : All IsLocated t.chunk_index

is_in-filter-false :
    (p : Bytes → Bool) (l : Bytes) (ls : List Bytes)
    → is_in l ls ≡ false
    → is_in l (filter p ls) ≡ false
unfolding is_in filter
is_in-filter-false p l [] h = refl
is_in-filter-false p l (a ∷ ls) h = ground (arith, h, is_in-filter-false p l ls)

filter-NoDup : (p : Bytes → Bool) (ls : List Bytes) → NoDup ls → NoDup (filter p ls)
unfolding filter
filter-NoDup p [] h = tt
filter-NoDup p (l ∷ ls) (a, h) = elim (Bool-cases (p l)) [
  | inl e ↦ rw (e, filter) (is_in-filter-false p l ls a, filter-NoDup p ls h)
  | inr e ↦ rw (e, filter) (filter-NoDup p ls h)
]

pub filter-Distinct :
    {V : Type 0} (p : Bytes × V → Bool) (m : List (Bytes × V))
    → Distinct bytes_discrete m
    → Distinct bytes_discrete (filter p m)
unfolding filter
filter-Distinct p [] d = tt
filter-Distinct p ((k, v) ∷ m) (a, d) = elim (Bool-cases (p (k, v))) [
  | inl e ↦ rw (e, filter) (lookup-filter-none p k m a, filter-Distinct p m d)
  | inr e ↦ rw (e, filter) (filter-Distinct p m d)
]

without_dead-NoDup :
    (dead : List Bytes) (index : ChunkIndex)
    → All IsLocated index
    → All (λ kv. NoDup kv.1) (without_dead dead index)
unfolding without_dead
without_dead-NoDup dead [] h = tt
without_dead-NoDup dead ((id, locs) ∷ index) ((a, _), h) =
    (filter-NoDup (λ l. not (is_in l dead)) locs a, without_dead-NoDup dead index h)

filter-IsLocated :
    (index : ChunkIndex)
    → All (λ kv. NoDup kv.1) index
    → All IsLocated (filter (λ kv. not (is_empty kv.1)) index)
unfolding filter
filter-IsLocated [] h = tt
filter-IsLocated ((id, locs) ∷ index) (a, h) = elim (Bool-cases (is_empty locs)) [
  | inl e ↦ rw (e, filter) (filter-IsLocated index h)
  | inr e ↦ rw (e, filter) ((a, e), filter-IsLocated index h)
]

cleaned-IsValid :
    (dead : List Bytes) (index : ChunkIndex) (peers : Peers)
    → Distinct bytes_discrete peers
    → Distinct bytes_discrete index
    → All IsLocated index
    → IsValid (cleaned dead index peers)
unfolding cleaned is_empty
cleaned-IsValid [] index peers p d h = record { peers_once = p; chunks_once = d; located = h }
cleaned-IsValid (e ∷ dead) index peers p d h = record {
  peers_once = p;
  chunks_once =
      filter-Distinct (λ kv. not (is_empty kv.1)) _ (without_dead-Distinct (e ∷ dead) index d);
  located = filter-IsLocated _ (without_dead-NoDup (e ∷ dead) index h);
}

pub prune-IsValid : (now : ℕ) (t : Tracker) → IsValid t → IsValid (prune_stale_and_cleanup now t)
unfolding prune_stale_and_cleanup prune_stale
prune-IsValid now t v =
    cleaned-IsValid (dead_of now t.peers) t.chunk_index (prune_stale now t.peers)
      (filter-Distinct _ t.peers v.peers_once) v.chunks_once v.located

-- The sets of a well-formed index.
lookup-NoDup :
    (id : Bytes) (locs : List Bytes) (index : ChunkIndex)
    → All IsLocated index
    → lookup bytes_discrete id index ≡ some locs
    → NoDup locs
unfolding lookup
lookup-NoDup id locs [] h e = absurd (ground (arith, e))
lookup-NoDup id locs ((j, ls) ∷ index) ((a, _), h) e = elim (bytes_discrete id j) [
  | yes p ↦ let same : ls ≡ locs = ground (arith, e, p) in subst NoDup same a
  | no p ↦ lookup-NoDup id locs index h (sym (if_neg (bytes_discrete id j) p _ _) ∙ e)
]

pub locations-NoDup :
    (id : Bytes) (index : ChunkIndex) → All IsLocated index → NoDup (locations id index)
unfolding locations
locations-NoDup id index h = elim (Option-cases (lookup bytes_discrete id index)) [
  | inl e ↦ rw (e, locations) tt
  | inr (locs, e) ↦ rw (e, locations) (lookup-NoDup id locs index h e)
]

is_empty-of_is_in :
    (loc : Bytes) (locs : List Bytes) → is_in loc locs ≡ true → is_empty locs ≡ false
unfolding is_empty is_in
is_empty-of_is_in loc [] h = cc
is_empty-of_is_in loc (l ∷ locs) h = refl

pub insert_location-IsLocated :
    (id loc : Bytes) (locs : List Bytes) → NoDup locs → IsLocated (id, insert_location loc locs)
unfolding insert_location
insert_location-IsLocated id loc locs h = elim (Bool-cases (is_in loc locs)) [
  | inl e ↦ rw (e, insert_location) (h, is_empty-of_is_in loc locs e)
  | inr e ↦ rw (e, insert_location) ((e, h), unfold is_empty in refl)
]

pub assign-IsLocated :
    (id : Bytes) (locs : List Bytes) (index : ChunkIndex)
    → IsLocated (id, locs)
    → All IsLocated index
    → All IsLocated (assign bytes_discrete id locs index)
unfolding assign
assign-IsLocated id locs [] a h = (a, tt)
assign-IsLocated id locs ((j, ls) ∷ index) a (b, h) = elim (bytes_discrete id j) [
  | yes p ↦ rw (if_pos (bytes_discrete id j) p) (a, h)
  | no p ↦ rw (if_neg (bytes_discrete id j) p) (b, assign-IsLocated id locs index a h)
]
