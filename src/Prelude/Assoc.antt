-- ===== src/Prelude/Assoc.antt =====
-- An `unordered_map` or a directory as a list of pairs, in the order in which it is walked. Reads
-- are the library's `lookup`; a write keeps the place of a key that is there.
use mathlib.Core.List.{List, [], ◌∷◌, lookup}
use mathlib.Core.Logic.{◌≢◌, ite}
use mathlib.Core.Option.{none, some}
use mathlib.Core.Path.{◌≡◌, refl}
use native.Mathlib.Omega.{arith}

module _ {ℓ} {K V : Type ℓ} (dec : Discrete K) where
  -- `m[k] = v`
  unfoldable pub assign : K → V → List (K × V) → List (K × V)
  assign k v [] = (k, v) ∷ []
  assign k v ((j, w) ∷ m) = ite (dec k j) ((k, v) ∷ m) ((j, w) ∷ assign k v m)

  -- `m.erase(k)`
  unfoldable pub remove : K → List (K × V) → List (K × V)
  remove k [] = []
  remove k ((j, w) ∷ m) = ite (dec k j) m ((j, w) ∷ remove k m)

  -- No key stands twice.
  abbrev pub Distinct : List (K × V) → Type ℓ
  Distinct [] = Unit
  Distinct ((j, w) ∷ m) = (lookup dec j m ≡ none) × Distinct m

  pub lookup-assign :
      (k j : K) (v : V) (m : List (K × V))
      → lookup dec j (assign k v m) ≡ ite (dec j k) (some v) (lookup dec j m)
  unfolding lookup assign
  lookup-assign k j v [] = refl
  lookup-assign k j v ((i, w) ∷ m) = ground (arith, lookup-assign k j v m)

  pub lookup-remove_ne :
      (k j : K) (m : List (K × V)) → j ≢ k → lookup dec j (remove k m) ≡ lookup dec j m
  unfolding lookup remove
  lookup-remove_ne k j [] h = refl
  lookup-remove_ne k j ((i, w) ∷ m) h = ground (arith, lookup-remove_ne k j m)

  pub lookup-remove_self :
      (k : K) (m : List (K × V)) → Distinct m → lookup dec k (remove k m) ≡ none
  unfolding lookup remove
  lookup-remove_self k [] d = refl
  lookup-remove_self k ((i, w) ∷ m) d = ground (arith, lookup-remove_self k m d.1)

  pub assign-Distinct : (k : K) (v : V) (m : List (K × V)) → Distinct m → Distinct (assign k v m)
  unfolding lookup assign
  assign-Distinct k v [] d = (refl, tt)
  assign-Distinct k v ((i, w) ∷ m) d = elim (dec k i) [
    | yes p ↦ ground arith
    | no p ↦ ground (arith, lookup-assign k i v m, assign-Distinct k v m d.1)
  ]

  pub remove-Distinct : (k : K) (m : List (K × V)) → Distinct m → Distinct (remove k m)
  unfolding lookup remove
  remove-Distinct k [] d = tt
  remove-Distinct k ((i, w) ∷ m) d = ground (arith, lookup-remove_ne k i m, remove-Distinct k m d.1)
