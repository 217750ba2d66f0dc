-- ===== src/Cpp/Sort.antt =====
-- `std::sort` with a comparator, as an insertion sort: the standard promises a sorted rearrangement.
use mathlib.Core.List.{Perm}
use mathlib.Core.List.Perm
use s2_decentralised_storage.Prelude.{
  suc, ◌≡◌, refl, Bool, true, false, List, [], ◌∷◌, ◌++◌, All, All-mono, All-split, length,
  if◌then◌else◌, arith, Bool-cases, inl, inr, ap, ◌∙◌,
}

module _ {A : Type 0} (less : A → A → Bool) where
  unfoldable pub insert : A → List A → List A
  insert x [] = x ∷ []
  insert x (y ∷ ys) = if less y x then y ∷ insert x ys else x ∷ y ∷ ys

  unfoldable pub sort : List A → List A
  unfolding insert
  sort [] = []
  sort (x ∷ xs) = insert x (sort xs)

  -- The second does not come before the first.
  abbrev pub NotAfter : A → A → Type 0
  NotAfter a b = less b a ≡ false

  abbrev pub IsSorted : List A → Type 0
  IsSorted [] = Unit
  IsSorted (x ∷ xs) = All (NotAfter x) xs × IsSorted xs

  pub insert-perm : (x : A) (l : List A) → Perm (insert x l) (x ∷ l)
  unfolding insert
  insert-perm x [] = Perm.rfl
  insert-perm x (y ∷ ys) = elim (Bool-cases (less y x)) [
    | inl p ↦ rw (p, insert) (Perm.trans (Perm.cons y (insert-perm x ys)) (Perm.swap x y ys))
    | inr p ↦ rw (p, insert) Perm.rfl
  ]

  pub sort-perm : (l : List A) → Perm (sort l) l
  unfolding sort
  sort-perm [] = Perm.rfl
  sort-perm (x ∷ xs) = Perm.trans (insert-perm x (sort xs)) (Perm.cons x (sort-perm xs))

  pub length-insert : (x : A) (l : List A) → length (insert x l) ≡ suc (length l)
  unfolding insert
  length-insert x [] = refl
  length-insert x (y ∷ ys) = ground (arith, length-insert x ys)

  pub length-sort : (l : List A) → length (sort l) ≡ length l
  unfolding sort
  length-sort [] = refl
  length-sort (x ∷ xs) = length-insert x (sort xs) ∙ ap suc (length-sort xs)

  pub All-insert : (P : A → Type 0) (x : A) (l : List A) → P x → All P l → All P (insert x l)
  unfolding insert
  All-insert P x [] p h = (p, tt)
  All-insert P x (y ∷ ys) p (q, h) = elim (Bool-cases (less y x)) [
    | inl e ↦ rw (e, insert) (q, All-insert P x ys p h)
    | inr e ↦ rw (e, insert) (p, (q, h))
  ]

  pub All-sort : (P : A → Type 0) (l : List A) → All P l → All P (sort l)
  unfolding sort
  All-sort P [] h = tt
  All-sort P (x ∷ xs) (p, h) = All-insert P x (sort xs) p (All-sort P xs h)

  -- The elements before a cut come before those behind it.
  pub IsSorted-split :
      (xs ys : List A) → IsSorted (xs ++ ys) → IsSorted xs × All (λ x. All (NotAfter x) ys) xs
  IsSorted-split [] ys s = (tt, tt)
  IsSorted-split (x ∷ xs) ys (h, s) =
      let (sorted, apart) = IsSorted-split xs ys s in
      let (near, far) = All-split (NotAfter x) xs ys h in ((near, sorted), (far, apart))

module _ {A : Type 0} (less : A → A → Bool) (asymm : (a b : A) → less a b ≡ true → less b a ≡ false)
    (trans : (a b c : A) → less b a ≡ false → less c b ≡ false → less c a ≡ false) where
  insert-IsSorted : (x : A) (l : List A) → IsSorted less l → IsSorted less (insert less x l)
  unfolding insert
  insert-IsSorted x [] s = (tt, tt)
  insert-IsSorted x (y ∷ ys) (h, s) = elim (Bool-cases (less y x)) [
    | inl e ↦
        rw (e, insert)
          (All-insert less (NotAfter less y) x ys (asymm y x e) h, insert-IsSorted x ys s)
    | inr e ↦
        rw (e, insert)
          ((e, All-mono (NotAfter less y) (NotAfter less x) ys (λ z k. trans x y z e k) h), (h, s))
  ]

  -- The result is sorted, for an order as the standard demands it.
  pub sort-IsSorted : (l : List A) → IsSorted less (sort less l)
  unfolding sort
  sort-IsSorted [] = tt
  sort-IsSorted (x ∷ xs) = insert-IsSorted x (sort less xs) (sort-IsSorted xs)
