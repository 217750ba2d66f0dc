-- ===== src/Peer/Wire/Replies.antt =====
-- Which command a request line reaches.
use s2_decentralised_storage.Prelude.{
  ℕ, ◌<◌, ◌≡◌, ◌≢◌, refl, ap, ◌∙◌, false, some, ite, [], ◌∷◌, ◌++◌, Bytes, codes, length, All,
  arith, bytes_discrete, if_pos, if_neg,
}
use s2_decentralised_storage.Cpp.Stream.{is_space, IsWord}
use s2_decentralised_storage.Cpp.Decimal.{u64_mod, to_string}
use s2_decentralised_storage.Net.Socket.{Segments}
use s2_decentralised_storage.Peer.Service.{
  PeerService, extract_word, dispatch, with_payload, put_chunk, put_manifest, get_chunk,
  get_manifest,
}
use s2_decentralised_storage.Peer.Line.{
  extract_word_end, extract_word-append, extract_word-space, extract_size-to_string,
}

abbrev pub put_chunk_name : Bytes
put_chunk_name = codes "PUT_CHUNK"

abbrev pub get_chunk_name : Bytes
get_chunk_name = codes "GET_CHUNK"

abbrev pub put_manifest_name : Bytes
put_manifest_name = codes "PUT_MANIFEST"

abbrev pub get_manifest_name : Bytes
get_manifest_name = codes "GET_MANIFEST"

abbrev pub first : Bytes → ℕ
first [] = 0
first (c ∷ s) = c

-- Commands of another first letter or another length differ.
pub skip_first {ℓ} :
    {A : Type ℓ} (cmd other : Bytes) (x y : A)
    → first cmd ≢ first other
    → ite (bytes_discrete cmd other) x y ≡ y
skip_first cmd other x y ne = if_neg (bytes_discrete cmd other) (λ e. ne (ap first e)) x y

pub skip_length {ℓ} :
    {A : Type ℓ} (cmd other : Bytes) (x y : A)
    → length cmd ≢ length other
    → ite (bytes_discrete cmd other) x y ≡ y
skip_length cmd other x y ne = if_neg (bytes_discrete cmd other) (λ e. ne (ap length e)) x y

pub command-IsWord : (c : ℕ) (s : Bytes) → All (λ d. is_space d ≡ false) (c ∷ s) → IsWord (c ∷ s)
command-IsWord c s g = record { nonempty = λ e. cc; graph = g }

id_of : (id : Bytes) → IsWord id → extract_word (b' ' ∷ id) ≡ (id, [])
id_of id g = extract_word-space id ∙ extract_word_end id g

id_and_size :
    (id rest : Bytes) → IsWord id → extract_word (b' ' ∷ (id ++ b' ' ∷ rest)) ≡ (id, b' ' ∷ rest)
id_and_size id rest g = extract_word-space (id ++ b' ' ∷ rest) ∙ extract_word-append id rest g

pub dispatch-put_chunk :
    (p : PeerService) (id : Bytes) (size : ℕ) (left : Segments)
    → IsWord id
    → size < u64_mod
    → dispatch p put_chunk_name (b' ' ∷ (id ++ b' ' ∷ to_string size)) left
      ≡ with_payload p put_chunk id size left
unfolding dispatch
dispatch-put_chunk p id size left g fits =
    rw (id_and_size id (to_string size) g, dispatch, extract_size-to_string size fits)
      (if_pos (bytes_discrete put_chunk_name put_chunk_name) refl _ _)

pub dispatch-get_chunk :
    (p : PeerService) (id : Bytes) (left : Segments)
    → IsWord id
    → dispatch p get_chunk_name (b' ' ∷ id) left ≡ some (get_chunk p id)
unfolding dispatch
dispatch-get_chunk p id left g =
    rw (id_of id g, dispatch)
      (skip_first get_chunk_name put_chunk_name _ _ (λ e. omega (arith, e))
        ∙ if_pos (bytes_discrete get_chunk_name get_chunk_name) refl _ _)

pub dispatch-put_manifest :
    (p : PeerService) (id : Bytes) (size : ℕ) (left : Segments)
    → IsWord id
    → size < u64_mod
    → dispatch p put_manifest_name (b' ' ∷ (id ++ b' ' ∷ to_string size)) left
      ≡ with_payload p put_manifest id size left
unfolding dispatch
dispatch-put_manifest p id size left g fits =
    rw (id_and_size id (to_string size) g, dispatch, extract_size-to_string size fits)
      (skip_length put_manifest_name put_chunk_name _ _ (λ e. omega (arith, e))
        ∙ skip_length put_manifest_name get_chunk_name _ _ (λ e. omega (arith, e))
        ∙ skip_length put_manifest_name (codes "HAS_CHUNK") _ _ (λ e. omega (arith, e))
        ∙ if_pos (bytes_discrete put_manifest_name put_manifest_name) refl _ _)

pub dispatch-get_manifest :
    (p : PeerService) (id : Bytes) (left : Segments)
    → IsWord id
    → dispatch p get_manifest_name (b' ' ∷ id) left ≡ some (get_manifest p id)
unfolding dispatch
dispatch-get_manifest p id left g =
    rw (id_of id g, dispatch)
      (skip_length get_manifest_name put_chunk_name _ _ (λ e. omega (arith, e))
        ∙ skip_length get_manifest_name get_chunk_name _ _ (λ e. omega (arith, e))
        ∙ skip_length get_manifest_name (codes "HAS_CHUNK") _ _ (λ e. omega (arith, e))
        ∙ skip_first get_manifest_name put_manifest_name _ _ (λ e. omega (arith, e))
        ∙ if_pos (bytes_discrete get_manifest_name get_manifest_name) refl _ _)
