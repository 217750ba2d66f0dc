-- ===== src/Client/Peers/Agreement.antt =====
-- The two readings of a list of peers, and the list that a program prints.
use s2_decentralised_storage.Prelude.{
  ◌≡◌, ◌≢◌, refl, ap, sym, ◌∙◌, Option, none, some, List, [], ◌∷◌, ◌++◌, append-nil, map, Bytes,
  All, All-append, All-mono, arith, Option-cases, inl, inr, suc, ◌>>=◌,
}
use s2_decentralised_storage.Cpp.Stream.{IsWord}
use s2_decentralised_storage.Cpp.Decimal.{to_string, to_string-All, IsDigit}
use s2_decentralised_storage.Cpp.Int.{ℤ, pos, negsuc, IsInt, to_string_int}
use s2_decentralised_storage.Cpp.Lines.{split_lines, split_lines-append, split_lines_end}
use s2_decentralised_storage.Dht.Id.{PeerEndpoint}
use s2_decentralised_storage.Net.Endpoint.{Parsed, parsed, invalid, after_tcp, parse_peer_entry}
use s2_decentralised_storage.Net.Endpoint.RoundTrip.{parse_peer_entry-entry, entry-IsWord}
use s2_decentralised_storage.Tracker.{entry}
use s2_decentralised_storage.Client.Peers.{
  push_all, parse_items, nonempty, parse_peers, push_valid, valid_items, valid_peers,
}

push_all_inv :
    (p : Parsed) (rest : Option (List PeerEndpoint)) (eps : List PeerEndpoint)
    → push_all p rest ≡ some eps
    → (ep : PeerEndpoint) × (more : List PeerEndpoint) × (p ≡ parsed ep)
      × (rest ≡ some more)
      × (eps ≡ ep ∷ more)
unfolding push_all
push_all_inv (invalid m) rest eps h = absurd (ground (arith, h))
push_all_inv (parsed ep) none eps h = absurd (ground (arith, h))
push_all_inv (parsed ep) (some more) eps h = (ep, more, refl, refl, ground (arith, h))

valid_items-parse_items :
    (items : List Bytes) (eps : List PeerEndpoint)
    → parse_items items ≡ some eps
    → valid_items items ≡ eps
unfolding parse_items valid_items push_valid
valid_items-parse_items [] eps h = ground (arith, h)
valid_items-parse_items ([] ∷ items) eps h = valid_items-parse_items items eps h
valid_items-parse_items ((c ∷ item) ∷ items) eps h =
    let (ep, more, p, q, e) =
      push_all_inv (parse_peer_entry (c ∷ item)) (parse_items items) eps h in
    ap (λ r. push_valid r (valid_items items)) p
    ∙ ap (◌∷◌ ep) (valid_items-parse_items items more q)
    ∙ sym e

-- A list that the command line accepts is read the same by the worker.
pub valid_peers-parse_peers :
    (text : Bytes) (eps : List PeerEndpoint)
    → parse_peers text ≡ some eps
    → valid_peers text ≡ some eps
unfolding parse_peers valid_peers
valid_peers-parse_peers text eps h = elim (Option-cases (parse_items (split_lines b',' text))) [
  | inl e ↦ absurd (ground (arith, e, h))
  | inr (all, e) ↦
      ap nonempty (valid_items-parse_items (split_lines b',' text) all e) ∙ ground (arith, e, h)
]

-- An address that survives being printed in a list: the host is a word without a comma.
pub record IsListed (ep : PeerEndpoint) : Type 0 where
  pub word : IsWord ep.ip
  pub plain : All (λ c. c ≢ b',') ep.ip
  pub port : IsInt ep.port
  pub bare : after_tcp (entry ep.ip ep.port) ≡ none

abbrev pub print : PeerEndpoint → Bytes
print ep = entry ep.ip ep.port

-- `QStringList::join(',')` and what a user writes.
abbrev pub join : List Bytes → Bytes
join [] = []
join (s ∷ []) = s
join (s ∷ t ∷ ss) = s ++ b',' ∷ join (t ∷ ss)

to_string_int-plain : (p : ℤ) → All (λ c. c ≢ b',') (to_string_int p)
unfolding to_string_int
to_string_int-plain (pos n) =
    All-mono IsDigit (λ c. c ≢ b',') (to_string n) (λ c d e. omega arith) (to_string-All n)
to_string_int-plain (negsuc n) = (
  λ e. omega (arith, e),
  All-mono IsDigit (λ c. c ≢ b',') (to_string (suc n)) (λ c d e. omega arith)
      (to_string-All (suc n)),
)

print-plain : (ep : PeerEndpoint) → IsListed ep → All (λ c. c ≢ b',') (print ep)
unfolding entry
print-plain ep l =
    All-append (λ c. c ≢ b',') ep.ip (b':' ∷ to_string_int ep.port) l.plain
      ((λ e. omega (arith, e)), to_string_int-plain ep.port)

split_lines-join :
    (eps : List PeerEndpoint)
    → All IsListed eps
    → split_lines b',' (join (map print eps)) ≡ map print eps
unfolding split_lines
split_lines-join [] h = refl
split_lines-join (ep ∷ []) (l, h) =
    split_lines_end b',' (print ep) (entry-IsWord ep.ip ep.port l.word).nonempty (print-plain ep l)
split_lines-join (ep ∷ q ∷ eps) (l, h) =
    split_lines-append b',' (print ep) (join (map print (q ∷ eps))) (print-plain ep l)
    ∙ ap (◌∷◌ (print ep)) (split_lines-join (q ∷ eps) h)

parse_print : (ep : PeerEndpoint) → IsListed ep → parse_peer_entry (print ep) ≡ parsed ep
parse_print ep l =
    ap parse_peer_entry (sym (append-nil (print ep)))
    ∙ (parse_peer_entry-entry [] [] ep.ip ep.port tt tt l.word l.port l.bare).0

parse_items-cons :
    (item : Bytes) (items : List Bytes)
    → item ≢ []
    → parse_items (item ∷ items) ≡ push_all (parse_peer_entry item) (parse_items items)
unfolding parse_items
parse_items-cons [] items ne = absurd (ne refl)
parse_items-cons (c ∷ item) items ne = refl

parse_items-print :
    (eps : List PeerEndpoint) → All IsListed eps → parse_items (map print eps) ≡ some eps
unfolding parse_items
parse_items-print [] h = refl
parse_items-print (ep ∷ eps) (l, h) =
    parse_items-cons (print ep) (map print eps) (entry-IsWord ep.ip ep.port l.word).nonempty
    ∙ ap (λ p. push_all p (parse_items (map print eps))) (parse_print ep l)
    ∙ unfold push_all in ap (λ r. r >>= λ more. some (ep ∷ more)) (parse_items-print eps h)

-- A list of peers that is printed with commas between them is read back by both client programs,
-- if there is a peer and each host is a word without a comma.
pub parse_peers-join :
    (ep : PeerEndpoint) (eps : List PeerEndpoint)
    → All IsListed (ep ∷ eps)
    → (parse_peers (join (map print (ep ∷ eps))) ≡ some (ep ∷ eps))
      × (valid_peers (join (map print (ep ∷ eps))) ≡ some (ep ∷ eps))
unfolding parse_peers nonempty
parse_peers-join ep eps h =
    let all = ep ∷ eps in
    let read : parse_peers (join (map print all)) ≡ some all =
      ap (λ l. parse_items l >>= nonempty) (split_lines-join all h)
      ∙ ap (λ o. o >>= nonempty) (parse_items-print all h) in
    (read, valid_peers-parse_peers (join (map print all)) all read)
