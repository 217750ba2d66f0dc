-- ===== src/Prelude/Text.antt =====
-- `std::string` and `std::vector<char>` as lists of byte values.
use Prim.Native.Nat.{ℕ}
use Prim.Native.Char.{code}
use Prim.Native.String.{String}
use mathlib.Core.List.{List, [], ◌∷◌}
use mathlib.Core.Path.{◌≡◌, refl, ap₂}
use native.Mathlib.Decide.{ℕ_discrete}

abbrev pub Bytes : Type 0
Bytes = List ℕ

-- The bytes of a literal, which is ASCII in every use.
abbrev pub codes : String → Bytes
codes String.[] = []
codes (String.◌∷◌ c s) = code c ∷ codes s

-- Two texts are compared byte by byte.
heads : {x y : ℕ} {s t : Bytes} → Dec (x ≡ y) → Dec (s ≡ t) → Dec ((x ∷ s) ≡ (y ∷ t))
heads (yes p) (yes q) = yes (ap₂ ◌∷◌ p q)
heads (yes p) (no q) = no (λ e. q (cc))
heads (no p) d = no (λ e. p (cc))

unfoldable pub bytes_discrete : Discrete Bytes
unfolding heads ℕ_discrete
bytes_discrete [] [] = yes refl
bytes_discrete [] (y ∷ t) = no (λ e. cc)
bytes_discrete (x ∷ s) [] = no (λ e. cc)
bytes_discrete (x ∷ s) (y ∷ t) = heads (ℕ_discrete x y) (bytes_discrete s t)
