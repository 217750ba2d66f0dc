-- ===== src/Peer/Wire/RoundTrip.antt =====
-- A chunk or a manifest that the client put is what it gets back over the wire.
use s2_decentralised_storage.Prelude.{
  ℕ, ◌≤◌, ◌<◌, ◌≡◌, refl, ap, sym, ◌∙◌, Bool, true, Option, none, some, ◌∷◌, ◌++◌, Bytes, codes,
  length, take, take_of_length-le, arith, bytes_discrete, if_pos,
}
use s2_decentralised_storage.Cpp.Stream.{is_space, IsWord}
use s2_decentralised_storage.Cpp.Decimal.{u64_mod, to_string, to_string-IsWord, length-to_string}
use s2_decentralised_storage.FileSystem.{FileSystem, read_file, write_file, read_file-write_file}
use s2_decentralised_storage.Storage as Storage
use s2_decentralised_storage.Storage.{store_chunk}
use s2_decentralised_storage.Net.Socket.{Segments, flatten, recv_payload, IsSteady}
use s2_decentralised_storage.Net.Socket.Segmentation.{IsAsk, recv_payload_lem}
use s2_decentralised_storage.Peer.Service.{
  PeerService, handle, put_chunk, put_manifest, get_manifest, stored, wrote, size_line,
  manifest_path, manifest_reply, extract_word,
}
use s2_decentralised_storage.Peer.Client.{
  arrived, ok, request, put_request, read_get, read_header, complete, ask_all,
}
use s2_decentralised_storage.Peer.Line.{
  recv_line-append, extract_word-append, extract_size-to_string,
}
use s2_decentralised_storage.Peer.Wire.{
  line, put_line, line-IsPlain, handle-request, handle-put_request, with_payload_lem,
}
use s2_decentralised_storage.Peer.Wire.Replies.{
  put_chunk_name, put_manifest_name, get_manifest_name, command-IsWord, dispatch-put_chunk,
  dispatch-put_manifest, dispatch-get_manifest,
}

-- What a client sends to put an object: a word as its id, a line that is short enough, a size that a
-- `size_t` holds.
pub record IsPut (cmd id payload : Bytes) (segs : Segments) : Type 0 where
  pub steady : IsSteady segs
  pub sent : flatten segs ≡ put_request cmd id payload
  pub word : IsWord id
  pub short : length (put_line cmd id (length payload)) ≤ 8192
  pub fits : length payload < u64_mod

pub record IsGet (cmd id : Bytes) (segs : Segments) : Type 0 where
  pub steady : IsSteady segs
  pub sent : flatten segs ≡ request cmd id
  pub word : IsWord id
  pub short : length (line cmd id) ≤ 8192

asks_all : IsAsk ask_all
unfolding ask_all
asks_all r = (omega arith, omega arith)

-- The client reads the payload behind a size line, however it comes.
pub read_get-size_line :
    (can_alloc : ℕ → Bool) (back : Segments) (payload : Bytes)
    → IsSteady back
    → flatten back ≡ size_line payload
    → length payload < u64_mod
    → can_alloc (length payload) ≡ true
    → read_get can_alloc (arrived back) ≡ ok payload
unfolding read_get size_line
read_get-size_line can_alloc back payload st e fits room =
    let n = length payload in
    let header = codes "OK " ++ to_string n in
    let ok_word = command-IsWord b'O' (codes "K") (unfold is_space in (refl, (refl, tt))) in
    let (left, read, rest, steady) =
      recv_line-append back (line (codes "OK") (to_string n)) payload st (unfold line in e)
        (line-IsPlain (codes "OK") (to_string n) ok_word (to_string-IsWord n))
        (unfold line in omega (arith, length-to_string n fits)) in
    let word : extract_word (line (codes "OK") (to_string n)) ≡ (codes "OK", b' ' ∷ to_string n) =
      unfold line in extract_word-append (codes "OK") (to_string n) ok_word in
    let got : recv_payload ask_all n n left ≡ payload =
      recv_payload_lem ask_all n n left asks_all steady (omega arith)
      ∙ ap (take n) rest
      ∙ take_of_length-le n payload (omega arith) in
    rw (read, read_header)
      (rw (word, extract_size-to_string n fits)
        (if_pos (bytes_discrete (codes "OK") (codes "OK")) refl _ _
          ∙ rw (room, got, complete) (ground arith)))

-- A put whose payload came whole reaches its handler.
pub handle-put_chunk :
    (p : PeerService) (id payload : Bytes) (segs : Segments)
    → IsPut put_chunk_name id payload segs
    → p.can_alloc (length payload) ≡ true
    → handle p segs ≡ some (stored p (store_chunk p.storage id payload))
handle-put_chunk p id payload segs c room =
    let (left, rest, steady, e) =
      handle-put_request p segs put_chunk_name id payload c.steady c.sent
        (command-IsWord b'P' (codes "UT_CHUNK") (
          unfold is_space in
          (refl, (refl, (refl, (refl, (refl, (refl, (refl, (refl, (refl, tt)))))))))))
        c.word c.short in
    e
    ∙ dispatch-put_chunk p id (length payload) left c.word c.fits
    ∙ with_payload_lem p put_chunk id payload left room steady rest
    ∙ ap some (unfold put_chunk in ground arith)

-- The same for a manifest.
pub handle-put_manifest :
    (p : PeerService) (id payload : Bytes) (segs : Segments)
    → IsPut put_manifest_name id payload segs
    → p.can_alloc (length payload) ≡ true
    → handle p segs
      ≡ some (wrote p (write_file p.storage.disk (manifest_path p.storage id) payload))
handle-put_manifest p id payload segs c room =
    let (left, rest, steady, e) =
      handle-put_request p segs put_manifest_name id payload c.steady c.sent
        (command-IsWord b'P' (codes "UT_MANIFEST") (
          unfold is_space in
          (
            refl,
            (
              refl,
              (refl, (refl, (refl, (refl, (refl, (refl, (refl, (refl, (refl, (refl, tt)))))))))),
            ),
          )))
        c.word c.short in
    e
    ∙ dispatch-put_manifest p id (length payload) left c.word c.fits
    ∙ with_payload_lem p put_manifest id payload left room steady rest
    ∙ ap some (unfold put_manifest in ground arith)

handle-get_manifest :
    (p : PeerService) (id : Bytes) (segs : Segments)
    → IsGet get_manifest_name id segs
    → handle p segs ≡ some (get_manifest p id)
handle-get_manifest p id segs g =
    let (left, _, e) =
      handle-request p segs get_manifest_name id g.steady g.sent
        (command-IsWord b'G' (codes "ET_MANIFEST") (
          unfold is_space in
          (
            refl,
            (
              refl,
              (refl, (refl, (refl, (refl, (refl, (refl, (refl, (refl, (refl, (refl, tt)))))))))),
            ),
          )))
        g.word g.short in
    e ∙ dispatch-get_manifest p id left g.word

some_injective {ℓ} : {A : Type ℓ} {a b : A} → some a ≡ some b → a ≡ b
some_injective e = cc

wrote_inv :
    (p p' : PeerService) (o : Option FileSystem)
    → wrote p o ≡ (p', codes "OK\n")
    → (fs : FileSystem) × (o ≡ some fs)
      × (p' ≡ record p { storage = record p.storage { disk = fs } })
unfolding wrote
wrote_inv p p' none h = absurd (omega (arith, ap (λ q. length q.1) h))
wrote_inv p p' (some fs) h = (fs, refl, ap (λ q. q.0) (sym h))

-- A manifest is put under a word, with a request line of 8192 bytes at most, on a service with the
-- memory for it. If the reply is `OK`, a get of it that follows is answered with its text, and the
-- client has it, however the network cuts the three messages into segments, none of them empty.
pub get_manifest-put_manifest :
    (p p' : PeerService) (id text : Bytes) (put get back : Segments)
    → IsPut put_manifest_name id text put
    → IsGet get_manifest_name id get
    → p.can_alloc (length text) ≡ true
    → handle p put ≡ some (p', codes "OK\n")
    → IsSteady back
    → flatten back ≡ size_line text
    → (handle p' get ≡ some (p', flatten back)) × (read_get p.can_alloc (arrived back) ≡ ok text)
unfolding get_manifest manifest_path
get_manifest-put_manifest p p' id text put get back c g room h st e =
    let path = manifest_path p.storage id in
    let o = write_file p.storage.disk path text in
    let done : wrote p o ≡ (p', codes "OK\n") =
      some_injective (sym (handle-put_manifest p id text put c room) ∙ h) in
    let (fs, placed, after) = wrote_inv p p' o done in
    let file : read_file fs path ≡ some text =
      read_file-write_file p.storage.disk path path text placed
      ∙ if_pos (bytes_discrete path path) refl _ _ in
    let same : manifest_path p'.storage id ≡ path = ap (λ q. manifest_path q.storage id) after in
    (
      handle-get_manifest p' id get g
          ∙ ap (λ r. some (p', manifest_reply r))
              (ap (λ q. read_file q.storage.disk (manifest_path p'.storage id)) after
                ∙ ap (read_file fs) same
                ∙ file)
          ∙ ap (λ l. some (p', l)) (sym e),
      read_get-size_line p.can_alloc back text st e c.fits room,
    )
