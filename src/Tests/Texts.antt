-- ===== src/Tests/Texts.antt =====
-- Qt's functions on texts and lists of texts, as far as the window uses them.
use s2_decentralised_storage.Prelude.{
  append-nil, drop, ◌==◌, ◌&&◌, ◌||◌, false, if◌then◌else◌, ◌≢◌, All, ℕ, ◌∙◌, ◌≡◌, refl, ap, ◌++◌,
  Bool, true, some, List, [], ◌∷◌, Bytes, codes, arith, bytes_discrete, ite, Bool-cases, inl, inr,
}
use s2_decentralised_storage.Cpp.Lines.{split_lines}
use s2_decentralised_storage.Tracker.{is_in, insert_location}
use s2_decentralised_storage.Tracker.Invariant.{NoDup}
use s2_decentralised_storage.Client.Peers.Agreement.{join}
use s2_decentralised_storage.Client.Qt.{Qt, IsQt}

-- `removeDuplicates`, which keeps the last of what stands more than once.
abbrev pub once : List Bytes → List Bytes
once [] = []
once (s ∷ ss) = insert_location s (once ss)

insert_location-NoDup : (s : Bytes) (ss : List Bytes) → NoDup ss → NoDup (insert_location s ss)
unfolding insert_location
insert_location-NoDup s ss h = elim (Bool-cases (is_in s ss)) [
  | inl e ↦ rw e h
  | inr e ↦ rw e (e, h)
]

is_in-insert_location :
    (e s : Bytes) (ss : List Bytes) → is_in e (insert_location s ss) ≡ is_in e (s ∷ ss)
unfolding insert_location is_in
is_in-insert_location e s ss = elim (Bool-cases (is_in s ss)) [
  | inr k ↦ rw k refl
  | inl k ↦ elim (bytes_discrete e s) [
    | yes p ↦ let there : is_in e ss ≡ true = rw p k in ground (arith, k, p, there)
    | no p ↦ ground (arith, k, p)
  ]
]

once-NoDup : (l : List Bytes) → NoDup (once l)
once-NoDup [] = tt
once-NoDup (s ∷ ss) = insert_location-NoDup s (once ss) (once-NoDup ss)

is_in-once : (l : List Bytes) (e : Bytes) → is_in e (once l) ≡ is_in e l
unfolding is_in
is_in-once [] e = refl
is_in-once (s ∷ ss) e =
    is_in-insert_location e s (once ss) ∙ ap (ite (bytes_discrete e s) true) (is_in-once ss e)

-- `arg` for the markers %1 and %2.
abbrev pub starts_with : ℕ → Bytes → Bool
starts_with d [] = false
starts_with d (c ∷ s) = c == d

abbrev pub has_marker : ℕ → Bytes → Bool
has_marker d [] = false
has_marker d (c ∷ s) = c == b'%' && starts_with d s || has_marker d s

abbrev pub put_in : ℕ → Bytes → Bytes → Bytes
put_in d text [] = []
put_in d text (c ∷ s) =
    let rest = put_in d text s in
    if c == b'%' && starts_with d s then text ++ drop 1 rest else c ∷ rest

abbrev pub arg : Bytes → Bytes → Bytes
arg s text = if has_marker b'1' s then put_in b'1' text s else put_in b'2' text s

plain-marker : (a : Bytes) → All (λ c. c ≢ b'%') a → has_marker b'1' (a ++ codes ":%2") ≡ false
plain-marker [] h = refl
plain-marker (c ∷ a) (ne, h) = ground (arith, ne, plain-marker a h)

plain-put_in :
    (a b : Bytes) → All (λ c. c ≢ b'%') a → put_in b'2' b (a ++ codes ":%2") ≡ a ++ b':' ∷ (b ++ [])
plain-put_in [] b h = refl
plain-put_in (c ∷ a) b (ne, h) = ground (arith, ne, plain-put_in a b h)

abbrev pub qt : Qt
qt = record {
  trimmed = λ s. s;
  split_commas = split_lines b',';
  join_commas = join;
  contains = λ l e. is_in e l;
  remove_duplicates = once;
  arg = arg;
  to_u64 = λ _. some 3;
}

pub qt-IsQt : IsQt qt
qt-IsQt = record {
  contains_lem = λ l e. refl;
  once = once-NoDup;
  same = is_in-once;
  arg_first = λ a. refl;
  arg_last =
      λ a b h. rw (plain-marker a h) (plain-put_in a b h ∙ ap (λ s. a ++ b':' ∷ s) (append-nil b));
  joined = λ l. refl;
}
