-- ===== src/Dht/Id/Metric.antt =====
-- The XOR metric: a distance that tells identifiers apart, and the order by it.
use Prim.Native.Nat.{bit_xor}
use s2_decentralised_storage.Prelude.{
  ℕ, ◌≡◌, ◌≢◌, refl, ap, sym, ◌∙◌, true, false, ◌&&◌, [], ◌∷◌, Bytes, length, All, ◌==◌, arith, ◌⊎◌,
  inl, inr, Bool-cases,
}
use s2_decentralised_storage.Cpp.Hexadecimal.{all_below, all_below_sound}
use s2_decentralised_storage.Crypto.Hex.{IsByte}
use s2_decentralised_storage.Dht.Id.{KademliaId, id_size, xor_distance, lex_lt, closer_to}

-- The values of the array type.
pub record IsId (id : KademliaId) : Type 0 where
  pub size : length id ≡ id_size
  pub bytes : All IsByte id

xor_table :
    all_below 256
      (λ x. all_below 256 (λ y. bit_xor (bit_xor x y) y == x && bit_xor x y == bit_xor y x))
    ≡ true
unfolding all_below
xor_table = refl

xor_row :
    (x y : ℕ) → IsByte x → IsByte y → (bit_xor (bit_xor x y) y ≡ x) × (bit_xor x y ≡ bit_xor y x)
xor_row x y hx hy =
    let row = all_below_sound 256 _ x xor_table hx in
    let cell =
      all_below_sound 256 (λ y. bit_xor (bit_xor x y) y == x && bit_xor x y == bit_xor y x) y row
        hy in
    ground arith

-- The distance is symmetric.
pub xor_distance_comm :
    (a b : KademliaId) → All IsByte a → All IsByte b → xor_distance a b ≡ xor_distance b a
unfolding xor_distance
xor_distance_comm [] [] ha hb = refl
xor_distance_comm [] (y ∷ b) ha hb = refl
xor_distance_comm (x ∷ a) [] ha hb = refl
xor_distance_comm (x ∷ a) (y ∷ b) (p, ha) (q, hb) =
    rw ((xor_row x y p q).1, xor_distance_comm a b ha hb)

-- Two identifiers at the same distance from a third are the same.
pub xor_distance_cancel :
    (a b t : KademliaId)
    → length a ≡ length t
    → length b ≡ length t
    → All IsByte a
    → All IsByte b
    → All IsByte t
    → xor_distance a t ≡ xor_distance b t
    → a ≡ b
unfolding xor_distance
xor_distance_cancel [] [] t la lb ha hb ht e = refl
xor_distance_cancel [] (y ∷ b) t la lb ha hb ht e = absurd (omega arith)
xor_distance_cancel (x ∷ a) [] t la lb ha hb ht e = absurd (omega arith)
xor_distance_cancel (x ∷ a) (y ∷ b) [] la lb ha hb ht e = absurd (omega arith)
xor_distance_cancel (x ∷ a) (y ∷ b) (z ∷ t) la lb (p, ha) (q, hb) (r, ht) e =
    let heads : bit_xor x z ≡ bit_xor y z = cc in
    let tails : xor_distance a t ≡ xor_distance b t = cc in
    let same : x ≡ y =
      sym (xor_row x z p r).0 ∙ ap (λ (d : ℕ). bit_xor d z) heads ∙ (xor_row y z q r).0 in
    let rest = xor_distance_cancel a b t (omega arith) (omega arith) ha hb ht tails in cc

pub lex_lt_irrefl : (a : Bytes) → lex_lt a a ≡ false
unfolding lex_lt
lex_lt_irrefl [] = refl
lex_lt_irrefl (x ∷ a) = ground (arith, lex_lt_irrefl a)

-- Not below, twice, is not below.
pub lex_lt_trans : (a b c : Bytes) → lex_lt b a ≡ false → lex_lt c b ≡ false → lex_lt c a ≡ false
unfolding lex_lt
lex_lt_trans [] [] [] p q = refl
lex_lt_trans [] [] (z ∷ c) p q = refl
lex_lt_trans [] (y ∷ b) [] p q = refl
lex_lt_trans [] (y ∷ b) (z ∷ c) p q = refl
lex_lt_trans (x ∷ a) [] [] p q = absurd (ground arith)
lex_lt_trans (x ∷ a) [] (z ∷ c) p q = absurd (ground arith)
lex_lt_trans (x ∷ a) (y ∷ b) [] p q = absurd (ground arith)
lex_lt_trans (x ∷ a) (y ∷ b) (z ∷ c) p q = ground (arith, lex_lt_trans a b c)

pub lex_lt_asymm : (a b : Bytes) → lex_lt a b ≡ true → lex_lt b a ≡ false
unfolding lex_lt
lex_lt_asymm [] [] p = refl
lex_lt_asymm [] (y ∷ b) p = refl
lex_lt_asymm (x ∷ a) [] p = absurd (ground arith)
lex_lt_asymm (x ∷ a) (y ∷ b) p = ground (arith, lex_lt_asymm a b)

pub lex_lt_trichotomy :
    (a b : Bytes) → length a ≡ length b → lex_lt a b ≡ false → lex_lt b a ≡ false → a ≡ b
unfolding lex_lt
lex_lt_trichotomy [] [] l p q = refl
lex_lt_trichotomy [] (y ∷ b) l p q = absurd (omega arith)
lex_lt_trichotomy (x ∷ a) [] l p q = absurd (omega arith)
lex_lt_trichotomy (x ∷ a) (y ∷ b) l p q = ground (arith, lex_lt_trichotomy a b)

length-xor_distance :
    (a t : KademliaId) → length a ≡ length t → length (xor_distance a t) ≡ length t
unfolding xor_distance
length-xor_distance [] [] l = refl
length-xor_distance [] (z ∷ t) l = absurd (omega arith)
length-xor_distance (x ∷ a) [] l = refl
length-xor_distance (x ∷ a) (z ∷ t) l = omega (arith, length-xor_distance a t (omega arith))

-- Of two different identifiers of 20 bytes exactly one is closer to a target of 20 bytes: there are
-- no ties.
pub closer_to_total :
    (a b target : KademliaId)
    → IsId a
    → IsId b
    → IsId target
    → a ≢ b
    → ((closer_to a b target ≡ true) × (closer_to b a target ≡ false))
      ⊎ ((closer_to a b target ≡ false) × (closer_to b a target ≡ true))
unfolding closer_to
closer_to_total a b target ha hb ht ne = elim (Bool-cases (closer_to a b target)) [
  | inl p ↦ inl (p, lex_lt_asymm _ _ p)
  | inr p ↦ elim (Bool-cases (closer_to b a target)) [
    | inl q ↦ inr (p, q)
    | inr q ↦
        let la : length a ≡ length target = omega (arith, ha.size, ht.size) in
        let lb : length b ≡ length target = omega (arith, hb.size, ht.size) in
        let same =
          lex_lt_trichotomy (xor_distance a target) (xor_distance b target)
            (omega (arith, length-xor_distance a target la, length-xor_distance b target lb)) p q in
        absurd (ne (xor_distance_cancel a b target la lb ha.bytes hb.bytes ht.bytes same))
  ]
]
