-- ===== src/Tracker/Client/Requests.antt =====
-- What the tracker makes of the client's three requests that ask for something.
use s2_decentralised_storage.Prelude.{
  ℕ, ◌^◌, ◌≤◌, ◌<◌, ◌≡◌, refl, ap, sym, ◌∙◌, if_pos, List, [], ◌∷◌, ◌++◌, append-nil, map, Bytes,
  codes, length, All, All-append, All-mono, length-append, arith, bytes_discrete, take,
}
use s2_decentralised_storage.Cpp.Stream.{is_space, IsGraph, IsWord}
use s2_decentralised_storage.Peer.Line.{
  IsPlain, IsPlain-of_IsGraph, extract_word_end, extract_word-append, extract_word-space,
}
use s2_decentralised_storage.Peer.Service.{extract_word}
use s2_decentralised_storage.Peer.Wire.Replies.{skip_first, command-IsWord}
use s2_decentralised_storage.Cpp.Decimal.{
  to_string-IsWord, length-to_string, to_string, is_digit, IsDigitEnd, read_number-space,
  read_number-to_string,
}
use s2_decentralised_storage.Cpp.Int.{pos, fits_int, signed}
use s2_decentralised_storage.Tracker.{
  extract_int, rest_of_int, positive_or, under_replicated, repair_lines, prune_stale_and_cleanup,
  Tracker, handle, handle_line, dispatch, where_alive, lines, or_newline, is_empty,
}
use s2_decentralised_storage.Tracker as Tracker
use s2_decentralised_storage.Tracker.Answers.{word_not_empty}

-- A line that the tracker reads whole.
abbrev pub IsRequest : Bytes → Type 0
IsRequest line = All IsPlain line × (length line ≤ 8192)

-- The three commands that answer something.
dispatch-where :
    (now : ℕ) (t : Tracker) (args : Bytes)
    → dispatch now t (codes "WHERE") args ≡ (t, Tracker.where_chunk now t args)
unfolding dispatch
dispatch-where now t args =
    skip_first (codes "WHERE") (codes "REGISTER") _ _ (λ e. omega (arith, e))
    ∙ skip_first (codes "WHERE") (codes "HEARTBEAT") _ _ (λ e. omega (arith, e))
    ∙ skip_first (codes "WHERE") (codes "ANNOUNCE") _ _ (λ e. omega (arith, e))
    ∙ if_pos (bytes_discrete (codes "WHERE") (codes "WHERE")) refl _ _

pub dispatch-need_repair :
    (now : ℕ) (t : Tracker) (args : Bytes)
    → dispatch now t (codes "NEED_REPAIR") args ≡ Tracker.need_repair now t args
unfolding dispatch
dispatch-need_repair now t args =
    skip_first (codes "NEED_REPAIR") (codes "REGISTER") _ _ (λ e. omega (arith, e))
    ∙ skip_first (codes "NEED_REPAIR") (codes "HEARTBEAT") _ _ (λ e. omega (arith, e))
    ∙ skip_first (codes "NEED_REPAIR") (codes "ANNOUNCE") _ _ (λ e. omega (arith, e))
    ∙ skip_first (codes "NEED_REPAIR") (codes "WHERE") _ _ (λ e. omega (arith, e))
    ∙ if_pos (bytes_discrete (codes "NEED_REPAIR") (codes "NEED_REPAIR")) refl _ _

dispatch-get_peers :
    (now : ℕ) (t : Tracker) (args : Bytes)
    → dispatch now t (codes "GET_PEERS") args ≡ Tracker.get_peers now t
unfolding dispatch
dispatch-get_peers now t args =
    skip_first (codes "GET_PEERS") (codes "REGISTER") _ _ (λ e. omega (arith, e))
    ∙ skip_first (codes "GET_PEERS") (codes "HEARTBEAT") _ _ (λ e. omega (arith, e))
    ∙ skip_first (codes "GET_PEERS") (codes "ANNOUNCE") _ _ (λ e. omega (arith, e))
    ∙ skip_first (codes "GET_PEERS") (codes "WHERE") _ _ (λ e. omega (arith, e))
    ∙ skip_first (codes "GET_PEERS") (codes "NEED_REPAIR") _ _ (λ e. omega (arith, e))
    ∙ if_pos (bytes_discrete (codes "GET_PEERS") (codes "GET_PEERS")) refl _ _

id_of : (id : Bytes) → IsWord id → extract_word (b' ' ∷ id) ≡ (id, [])
id_of id g = extract_word-space id ∙ extract_word_end id g

graph-IsRequest : (line : Bytes) → All IsGraph line → All IsPlain line
graph-IsRequest line g = All-mono IsGraph IsPlain line IsPlain-of_IsGraph g

-- A command and its arguments, as the tracker takes them apart.
pub command_word :
    (cmd rest : Bytes) → IsWord cmd → extract_word (cmd ++ b' ' ∷ rest) ≡ (cmd, b' ' ∷ rest)
command_word cmd rest g = extract_word-append cmd rest g

where-IsWord : IsWord (codes "WHERE")
where-IsWord =
    command-IsWord b'W' (codes "HERE")
      (unfold is_space in (refl, (refl, (refl, (refl, (refl, tt))))))

pub where-IsRequest : (id : Bytes) → IsWord id → length id ≤ 8000 → IsRequest (codes "WHERE " ++ id)
where-IsRequest id g short = (
  All-append IsPlain (codes "WHERE ") id (omega arith) (graph-IsRequest id g.graph),
  omega (arith, short),
)

where_answer :
    (now : ℕ) (t : Tracker) (id : Bytes)
    → IsWord id
    → Tracker.where_chunk now t (b' ' ∷ id) ≡ or_newline (lines (where_alive now t id))
unfolding Tracker.where_chunk
where_answer now t id g = rw (id_of id g, Tracker.where_chunk, word_not_empty id g)

pub where_dispatch :
    (now : ℕ) (t : Tracker) (id : Bytes)
    → IsWord id
    → (dispatch now t
        (extract_word (codes "WHERE " ++ id)).0
        (extract_word (codes "WHERE " ++ id)).1).1
      ≡ or_newline (lines (where_alive now t id))
where_dispatch now t id g =
    ap (λ r. (dispatch now t r.0 r.1).1) (command_word (codes "WHERE") id where-IsWord)
    ∙ ap (λ r. r.1) (dispatch-where now t (b' ' ∷ id))
    ∙ where_answer now t id g

get_peers-IsWord : IsWord (codes "GET_PEERS")
get_peers-IsWord =
    command-IsWord b'G' (codes "ET_PEERS") (
      unfold is_space in (refl, (refl, (refl, (refl, (refl, (refl, (refl, (refl, (refl, tt))))))))))

pub get_peers-dispatch :
    (now : ℕ) (t : Tracker)
    → dispatch now t (extract_word (codes "GET_PEERS")).0 (extract_word (codes "GET_PEERS")).1
      ≡ Tracker.get_peers now t
get_peers-dispatch now t =
    ap (λ r. dispatch now t r.0 r.1) (extract_word_end (codes "GET_PEERS") get_peers-IsWord)
    ∙ dispatch-get_peers now t []

pub get_peers_answer :
    (now : ℕ) (t : Tracker)
    → (Tracker.get_peers now t).1
      ≡ or_newline (lines (map (λ kv. kv.0) (Tracker.get_peers now t).0.peers))
unfolding Tracker.get_peers
get_peers_answer now t = refl

pub need_repair-IsWord : IsWord (codes "NEED_REPAIR")
need_repair-IsWord = command-IsWord b'N' (codes "EED_REPAIR") (
    unfold is_space in
    (refl, (refl, (refl, (refl, (refl, (refl, (refl, (refl, (refl, (refl, (refl, tt))))))))))))

pub need_repair-IsRequest :
    (d k : ℕ)
    → d < 2 ^ 31
    → k < 2 ^ 31
    → IsRequest (codes "NEED_REPAIR " ++ (to_string d ++ b' ' ∷ to_string k))
need_repair-IsRequest d k fd fk =
    let args = to_string d ++ b' ' ∷ to_string k in
    (
      All-append IsPlain (codes "NEED_REPAIR ") args (omega arith) (
          All-append IsPlain (to_string d) (b' ' ∷ to_string k)
            (graph-IsRequest (to_string d) (to_string-IsWord d).graph)
            ((omega arith), graph-IsRequest (to_string k) (to_string-IsWord k).graph)),
      omega (
        arith,
        length-append (to_string d) (b' ' ∷ to_string k),
        length-to_string d (omega (arith, fd)),
        length-to_string k (omega (arith, fk)),
      ),
    )

-- A number among the arguments.
extract_int-append :
    (n : ℕ) (rest : Bytes)
    → n < 2 ^ 31
    → IsDigitEnd rest
    → (extract_int (b' ' ∷ (to_string n ++ rest)) ≡ pos n)
      × (rest_of_int (b' ' ∷ (to_string n ++ rest)) ≡ rest)
unfolding extract_int rest_of_int fits_int signed
extract_int-append n rest fits h =
    let e =
      read_number-space b' ' (to_string n ++ rest) (unfold is_space in refl)
      ∙ read_number-to_string n rest h in
    (rw (e, extract_int) (ground (arith, fits)), rw (e, rest_of_int) (ground (arith, fits)))

positive_or-pos : (o n : ℕ) → 0 < n → positive_or o (pos n) ≡ n
unfolding positive_or
positive_or-pos o n h = ground arith

-- The chunks that NEED_REPAIR answers with at a time.
abbrev pub to_repair : ℕ → Tracker → ℕ → ℕ → List (Bytes × ℕ)
to_repair now t d k =
    let pruned = prune_stale_and_cleanup now t in
    take k (under_replicated d pruned.peers pruned.chunk_index)

pub need_repair_answer :
    (now : ℕ) (t : Tracker) (d k : ℕ)
    → 0 < d
    → 0 < k
    → d < 2 ^ 31
    → k < 2 ^ 31
    → (Tracker.need_repair now t (b' ' ∷ (to_string d ++ b' ' ∷ to_string k))).1
      ≡ or_newline (repair_lines (to_repair now t d k))
unfolding Tracker.need_repair
need_repair_answer now t d k p q fd fk =
    let answer = λ (n m : ℕ). or_newline (repair_lines (to_repair now t n m)) in
    let args = b' ' ∷ (to_string d ++ b' ' ∷ to_string k) in
    let (first, rest) = extract_int-append d (b' ' ∷ to_string k) fd (unfold is_digit in refl) in
    let desired : positive_or 2 (extract_int args) ≡ d =
      ap (positive_or 2) first ∙ positive_or-pos 2 d p in
    let limit : positive_or 50 (extract_int (rest_of_int args)) ≡ k =
      ap (λ s. positive_or 50 (extract_int s)) rest
      ∙ ap (λ s. positive_or 50 (extract_int (b' ' ∷ s))) (sym (append-nil (to_string k)))
      ∙ ap (positive_or 50) (extract_int-append k [] fk tt).0
      ∙ positive_or-pos 50 k q in
    ap (λ n. answer n (positive_or 50 (extract_int (rest_of_int args)))) desired
    ∙ ap (answer d) limit
