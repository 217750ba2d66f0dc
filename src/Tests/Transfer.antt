-- ===== src/Tests/Transfer.antt =====
-- A file of one chunk is put and got back, with a digest that one text alone has.
use s2_decentralised_storage.Prelude.{
  ℕ, ◌≡◌, refl, sym, subst, ap, ◌∙◌, true, some, List, [], ◌∷◌, Bytes, codes, length, All,
  replicate, bytes_discrete, ite, if_pos, if_neg, arith, lookup,
}
use s2_decentralised_storage.FileSystem.{FileSystem, read_file}
use s2_decentralised_storage.Crypto.Hex.{IsByte, from_hex}
use s2_decentralised_storage.Crypto.Sha256.{Sha256, sha256_hex, sha256_hex_lem}
use s2_decentralised_storage.Chunk as Chunk
use s2_decentralised_storage.Chunk.{Chunk, chunk_file, chunk_content, read_loop}
use s2_decentralised_storage.Tests.Download.{any_size}
use s2_decentralised_storage.Tests.Keys.{zeros-All}

abbrev pub abc : Bytes
abc = codes "abc"

unfoldable pub mark : Bytes → Bytes
mark s = ite (bytes_discrete s abc) (1 ∷ replicate 31 0) (replicate 32 0)

pub mark_size : (s : Bytes) → length (mark s) ≡ 32
unfolding mark
mark_size s = elim (bytes_discrete s abc) [
  | yes e ↦ ap length (if_pos (bytes_discrete s abc) e (1 ∷ replicate 31 0) (replicate 32 0))
  | no e ↦ ap length (if_neg (bytes_discrete s abc) e (1 ∷ replicate 31 0) (replicate 32 0))
]

marked-All : All IsByte (1 ∷ replicate 31 0)
marked-All = (omega arith, zeros-All 31)

pub mark-All : (s : Bytes) → All IsByte (mark s)
unfolding mark
mark-All s = elim (bytes_discrete s abc) [
  | yes e ↦
      subst (All IsByte)
        (sym (if_pos (bytes_discrete s abc) e (1 ∷ replicate 31 0) (replicate 32 0))) marked-All
  | no e ↦
      subst (All IsByte)
        (sym (if_neg (bytes_discrete s abc) e (1 ∷ replicate 31 0) (replicate 32 0))) (zeros-All 32)
]

abbrev pub mark_sha : Sha256
mark_sha = record { digest = mark; length-digest = mark_size; digest-All = mark-All }

abbrev head_or : Bytes → ℕ
head_or [] = 0
head_or (c ∷ s) = c

mark-injective : (p : Bytes) → mark p ≡ mark abc → p ≡ abc
unfolding mark
mark-injective p h = elim (bytes_discrete p abc) [
  | yes e ↦ e
  | no ne ↦
      let e : replicate 32 0 ≡ 1 ∷ replicate 31 0 =
        sym (if_neg (bytes_discrete p abc) ne (1 ∷ replicate 31 0) (replicate 32 0))
        ∙ h
        ∙ if_pos (bytes_discrete abc abc) refl (1 ∷ replicate 31 0) (replicate 32 0) in
      absurd (omega (arith, ap head_or e))
]

some_digest : (a b : Bytes) → some a ≡ some b → a ≡ b
some_digest a b e = cc

pub unmatched : (p : Bytes) → sha256_hex mark_sha p ≡ sha256_hex mark_sha abc → p ≡ abc
unmatched p h = mark-injective p (
    some_digest (mark p) (mark abc)
      (sym (sha256_hex_lem mark_sha p).2 ∙ ap from_hex h ∙ (sha256_hex_lem mark_sha abc).2))

abbrev pub disk : FileSystem
disk = record {
  files = (codes "f", abc) ∷ [];
  can_write = λ _. true;
  can_rename = λ _ _. true;
  can_remove = λ _. true;
  is_dir = λ _. true;
  absolute = λ p. p;
}

abbrev pub chunks : List Chunk
chunks = record { id = []; bytes = abc } ∷ []

pub opens : read_file disk (codes "f") ≡ some abc
unfolding read_file lookup bytes_discrete
opens = refl

pub cut : chunk_file any_size disk (codes "f") 3 ≡ Chunk.ok chunks
unfolding chunk_file chunk_content read_loop read_file lookup bytes_discrete
cut = refl
