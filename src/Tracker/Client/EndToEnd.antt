-- ===== src/Tracker/Client/EndToEnd.antt =====
-- The client's calls against the handler of the tracker, over a connection that cuts the texts into
-- segments as it likes.
use s2_decentralised_storage.Prelude.{
  ℕ, ◌^◌, ◌≤◌, ◌<◌, ◌≡◌, refl, ap, sym, ◌∙◌, List, [], ◌∷◌, ◌++◌, append_assoc, map, Bytes, codes,
  length, All, arith,
}
use s2_decentralised_storage.Cpp.Stream.{IsWord}
use s2_decentralised_storage.Dht.Id.{PeerEndpoint}
use s2_decentralised_storage.Net.Socket.{Segments, flatten, IsSteady}
use s2_decentralised_storage.Net.Socket.Segmentation.{recv_all_text_lem}
use s2_decentralised_storage.Peer.Client.{Reply, arrived}
use s2_decentralised_storage.Peer.Line.{recv_line-append}
use s2_decentralised_storage.Peer.Service.{extract_word}
use s2_decentralised_storage.Cpp.Decimal.{to_string}
use s2_decentralised_storage.Cpp.Int.{pos, to_string_int}
use s2_decentralised_storage.Tracker.{
  extract_int, rest_of_int, positive_or, under_replicated, repair_lines, prune_stale_and_cleanup,
  Tracker, handle, handle_line, dispatch, where_alive, lines, or_newline, is_empty,
}
use s2_decentralised_storage.Tracker as Tracker
use s2_decentralised_storage.Tracker.Client as Client
use s2_decentralised_storage.Tracker.Client.{
  repair_request, read_repairs, ◌>>=◌, Result, ok, throw, where_request, with_newline, request_line,
  read_reply, read_where, read_peers,
}
use s2_decentralised_storage.Tracker.Client.Answers.{
  IsEndpoint, print, IsRepair, read_repairs-repair_lines, read_where-lines, read_peers-lines,
}
use s2_decentralised_storage.Tracker.Client.Requests.{
  IsRequest, get_peers-dispatch, get_peers_answer, need_repair-IsRequest, need_repair_answer,
  where-IsRequest, where_dispatch, need_repair-IsWord, command_word, dispatch-need_repair,
  to_repair,
}

-- The network carries a request to the tracker, which handles it at the time `now`, and the answer back.
pub record Carries {World : Type 0} (call : World → Bytes → World × Reply) (now : ℕ)
    (t t' : Tracker) (w w' : World) (line : Bytes) : Type 0 where
  pub sent : Segments
  pub answer : Segments
  pub sent_whole : flatten sent ≡ line ++ 10 ∷ []
  pub sent_steady : IsSteady sent
  pub handled : handle now t sent ≡ (t', flatten answer)
  pub answer_steady : IsSteady answer
  pub carried : call w (line ++ 10 ∷ []) ≡ (w', arrived answer)

with_newline-append : (s : Bytes) → with_newline (s ++ 10 ∷ []) ≡ s ++ 10 ∷ []
unfolding with_newline
with_newline-append [] = refl
with_newline-append (c ∷ []) = refl
with_newline-append (c ∷ d ∷ s) = ap (◌∷◌ c) (with_newline-append (d ∷ s))

module _ {World : Type 0} (call : World → Bytes → World × Reply) (now : ℕ) (t t' : Tracker)
    (w w' : World) (line : Bytes) (c : Carries call now t t' w w' line) (q : IsRequest line) where
  answered : dispatch now t (extract_word line).0 (extract_word line).1 ≡ (t', flatten c.answer)
  unfolding handle handle_line
  answered =
      let (left, read, _, _) = recv_line-append c.sent line [] c.sent_steady c.sent_whole q.0 q.1 in
      sym (ap (handle_line now t) read) ∙ c.handled

  -- What the tracker answers is what the client gets.
  request_line-handle :
      request_line call w (line ++ 10 ∷ [])
      ≡ (w', ok (dispatch now t (extract_word line).0 (extract_word line).1).1)
  unfolding request_line read_reply
  request_line-handle =
      let step : World × Reply → World × Result Bytes = λ r. (r.0, read_reply r.1) in
      let result : Bytes → World × Result Bytes = λ s. (w', ok s) in
      ap (λ s. step (call w s)) (with_newline-append line)
      ∙ ap step c.carried
      ∙ ap result (recv_all_text_lem c.answer c.answer_steady ∙ sym (ap (λ r. r.1) answered))

module _ {World : Type 0} (call : World → Bytes → World × Reply) (now : ℕ) (t t' : Tracker)
    (w w' : World) where
  -- If the network carries the request to the tracker and the answer back, cut in any way,
  -- `whereChunk` returns exactly the peers that the tracker finds alive for the chunk at that time,
  -- in its order. The chunk's name is a word of 8000 bytes at most, and those peers' addresses are
  -- words without a colon.
  pub where_chunk-handle :
      (id : Bytes) (eps : List PeerEndpoint)
      → Carries call now t t' w w' (codes "WHERE " ++ id)
      → IsWord id
      → length id ≤ 8000
      → where_alive now t id ≡ map print eps
      → All IsEndpoint eps
      → Client.where_chunk call w id ≡ (w', ok eps)
  unfolding Client.where_chunk where_request
  where_chunk-handle id eps c g short e h =
      let line = codes "WHERE " ++ id in
      let text : (dispatch now t (extract_word line).0 (extract_word line).1).1
          ≡ or_newline (lines (map print eps)) =
        where_dispatch now t id g ∙ ap (λ l. or_newline (lines l)) e in
      let read : World × Result Bytes → World × Result (List PeerEndpoint) =
        λ r. (r.0, r.1 >>= read_where) in
      ap read (request_line-handle call now t t' w w' line c (where-IsRequest id g short))
      ∙ ap (λ s. read (w', ok s)) text
      ∙ ap (λ r. (w', r)) (read_where-lines eps h)

  -- If the network carries the request to the tracker and the answer back, cut in any way,
  -- `getPeers` returns exactly the peers that the tracker knows when it has answered, in its order,
  -- if their addresses are words without a colon.
  pub get_peers-handle :
      (eps : List PeerEndpoint)
      → Carries call now t t' w w' (codes "GET_PEERS")
      → map (λ kv. kv.0) t'.peers ≡ map print eps
      → All IsEndpoint eps
      → Client.get_peers call w ≡ (w', ok eps)
  unfolding Client.get_peers
  get_peers-handle eps c e h =
      let line = codes "GET_PEERS" in
      let q : IsRequest line = (omega arith, omega arith) in
      let done = answered call now t t' w w' line c q in
      let after : (Tracker.get_peers now t).0 ≡ t' =
        ap (λ r. r.0) (sym (get_peers-dispatch now t) ∙ done) in
      let text : (dispatch now t (extract_word line).0 (extract_word line).1).1
          ≡ or_newline (lines (map print eps)) =
        ap (λ r. r.1) (get_peers-dispatch now t)
        ∙ get_peers_answer now t
        ∙ ap (λ s. or_newline (lines (map (λ kv. kv.0) s.peers))) after
        ∙ ap (λ l. or_newline (lines l)) e in
      let read : World × Result Bytes → World × Result (List PeerEndpoint) =
        λ r. (r.0, r.1 >>= read_peers) in
      ap read (request_line-handle call now t t' w w' line c q)
      ∙ ap (λ s. read (w', ok s)) text
      ∙ ap (λ r. (w', r)) (read_peers-lines eps h)

  -- If the network carries the request to the tracker and the answer back, cut in any way,
  -- `needRepair` with a positive number of replicas and a positive limit returns exactly the chunks
  -- that the tracker finds short of replicas once it has dropped the stale peers, up to the limit
  -- and in its order. The chunks' names are words and their counts are values of an `int`.
  pub need_repair-handle :
      (d k : ℕ)
      → Carries call now t t' w w' (codes "NEED_REPAIR " ++ (to_string d ++ b' ' ∷ to_string k))
      → 0 < d
      → 0 < k
      → d < 2 ^ 31
      → k < 2 ^ 31
      → All IsRepair (to_repair now t d k)
      → Client.need_repair call w (pos d) (pos k) ≡ (w', ok (map (λ r. r.0) (to_repair now t d k)))
  unfolding Client.need_repair repair_request to_string_int
  need_repair-handle d k c p q fd fk h =
      let args = to_string d ++ b' ' ∷ to_string k in
      let line = codes "NEED_REPAIR " ++ args in
      let found = to_repair now t d k in
      let text : (dispatch now t (extract_word line).0 (extract_word line).1).1
          ≡ or_newline (repair_lines found) =
        ap (λ r. (dispatch now t r.0 r.1).1)
          (command_word (codes "NEED_REPAIR") args need_repair-IsWord)
        ∙ ap (λ r. r.1) (dispatch-need_repair now t (b' ' ∷ args))
        ∙ need_repair_answer now t d k p q fd fk in
      let read : World × Result Bytes → World × Result (List Bytes) =
        λ r. (r.0, r.1 >>= λ s. ok (read_repairs s)) in
      let result : List Bytes → World × Result (List Bytes) = λ l. (w', ok l) in
      ap (λ s. read (request_line call w (codes "NEED_REPAIR " ++ s)))
        (sym (append_assoc (to_string d) (b' ' ∷ to_string k) (10 ∷ [])))
      ∙ ap read (request_line-handle call now t t' w w' line c (need_repair-IsRequest d k fd fk))
      ∙ ap (λ s. read (w', ok s)) text
      ∙ ap result (read_repairs-repair_lines found h)
