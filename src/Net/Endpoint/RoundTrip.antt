-- ===== src/Net/Endpoint/RoundTrip.antt =====
-- What the parser makes of an address that was printed.
use s2_decentralised_storage.Prelude.{
  ℕ, ◌≡◌, ◌≢◌, refl, ap, ◌∙◌, true, none, some, [], ◌∷◌, ◌++◌, Bytes, codes, All, All-append,
  All-mono, suc, append-nil, arith,
}
use s2_decentralised_storage.Cpp.Stream.{is_space, IsGraph, IsWord}
use s2_decentralised_storage.Cpp.Decimal.{to_string, to_string-IsWord, to_string-All, IsDigit}
use s2_decentralised_storage.Cpp.Int.{ℤ, pos, negsuc, IsInt, to_string_int, stoi-to_string_int}
use s2_decentralised_storage.Tracker.{entry}
use s2_decentralised_storage.Net.Endpoint.{
  parsed, is_blank, trim_front, keep_back, trim_back, trim_ws, after_tcp, without_tcp, split_cons,
  split_last, read_port, read_parts, read_split, read_item, parse_peer_entry,
}

abbrev pub IsBlank : ℕ → Type 0
IsBlank c = is_blank c ≡ true

trim_front-append : (b s : Bytes) → All IsBlank b → trim_front (b ++ s) ≡ trim_front s
unfolding trim_front
trim_front-append [] s h = refl
trim_front-append (c ∷ b) s (p, h) = ground (arith, trim_front-append b s h)

trim_back-blanks : (b : Bytes) → All IsBlank b → trim_back b ≡ []
unfolding trim_back keep_back
trim_back-blanks [] h = refl
trim_back-blanks (c ∷ b) (p, h) = ground (arith, trim_back-blanks b h)

-- A word keeps all its characters, and what stands behind it is trimmed.
trim_back-append : (w b : Bytes) → All IsGraph w → All IsBlank b → trim_back (w ++ b) ≡ w
unfolding trim_back
trim_back-append [] b g h = trim_back-blanks b h
trim_back-append (c ∷ []) b (p, g) h =
    rw (trim_back-blanks b h, trim_back) (unfold keep_back is_blank is_space in ground (arith, p))
trim_back-append (c ∷ d ∷ w) b (p, g) h =
    rw (trim_back-append (d ∷ w) b g h, trim_back) (unfold keep_back in refl)

trim_front-word : (w s : Bytes) → IsWord w → trim_front (w ++ s) ≡ w ++ s
unfolding trim_front is_blank is_space
trim_front-word [] s g = absurd (g.nonempty refl)
trim_front-word (c ∷ w) s g = ground (arith, g.graph)

-- A word between blanks is what trimming leaves.
pub trim_ws_lem :
    (b w e : Bytes) → All IsBlank b → IsWord w → All IsBlank e → trim_ws (b ++ (w ++ e)) ≡ w
unfolding trim_ws
trim_ws_lem b w e hb g he =
    ap trim_back (trim_front-append b (w ++ e) hb ∙ trim_front-word w e g)
    ∙ trim_back-append w e g.graph he

-- No colon.
abbrev IsPlain : ℕ → Type 0
IsPlain c = c ≢ b':'

split_last-plain : (t : Bytes) → All IsPlain t → split_last t ≡ none
unfolding split_last split_cons
split_last-plain [] h = refl
split_last-plain (c ∷ t) (p, h) = rw (split_last-plain t h, split_last) (ground (arith, p))

-- The last colon is the one with none behind it.
split_last-append : (h t : Bytes) → All IsPlain t → split_last (h ++ b':' ∷ t) ≡ some (h, t)
unfolding split_last split_cons
split_last-append [] t p = rw (split_last-plain t p)
split_last-append (c ∷ h) t p = rw (split_last-append h t p)

to_string_int-IsPlain : (p : ℤ) → All IsPlain (to_string_int p)
unfolding to_string_int
to_string_int-IsPlain (pos n) =
    All-mono IsDigit IsPlain (to_string n) (λ c d e. omega arith) (to_string-All n)
to_string_int-IsPlain (negsuc n) = (
  λ e. omega (arith, e),
  All-mono IsDigit IsPlain (to_string (suc n)) (λ c d e. omega arith) (to_string-All (suc n)),
)

pub to_string_int-IsWord : (p : ℤ) → IsWord (to_string_int p)
unfolding to_string_int is_space
to_string_int-IsWord (pos n) = to_string-IsWord n
to_string_int-IsWord (negsuc n) = record {
  nonempty = λ e. cc;
  graph = (refl, (to_string-IsWord (suc n)).graph);
}

append-ne-nil : (h t : Bytes) (c : ℕ) → h ++ c ∷ t ≢ []
append-ne-nil [] t c e = cc
append-ne-nil (d ∷ h) t c e = cc

pub entry-IsWord : (host : Bytes) (p : ℤ) → IsWord host → IsWord (entry host p)
unfolding entry is_space
entry-IsWord host p g = record {
  nonempty = append-ne-nil host (to_string_int p) b':';
  graph =
      All-append IsGraph host (b':' ∷ to_string_int p) g.graph
        (refl, (to_string_int-IsWord p).graph);
}

trim_ws-word : (w : Bytes) → IsWord w → trim_ws w ≡ w
trim_ws-word w g = rw append-nil at (trim_ws_lem [] w [] tt g tt)

-- Neither part is empty.
read_parts-words :
    (item host port : Bytes)
    → IsWord host
    → IsWord port
    → read_parts item host port ≡ read_port host port
unfolding read_parts
read_parts-words item [] port g q = absurd (g.nonempty refl)
read_parts-words item (h ∷ host) [] g q = absurd (q.nonempty refl)
read_parts-words item (h ∷ host) (c ∷ port) g q = refl

read_split-words :
    (item host port : Bytes)
    → IsWord host
    → read_split item (some (host, port)) ≡ read_parts item (trim_ws host) (trim_ws port)
unfolding read_split
read_split-words item [] port g = absurd (g.nonempty refl)
read_split-words item (h ∷ host) port g = refl

read_port-to_string_int :
    (host : Bytes) (p : ℤ)
    → IsInt p
    → read_port host (to_string_int p) ≡ parsed (record { ip = host; port = p })
unfolding read_port
read_port-to_string_int host p i = rw (stoi-to_string_int p i, read_port)

read_item-entry :
    (host : Bytes) (p : ℤ)
    → IsWord host
    → IsInt p
    → read_item (entry host p) ≡ parsed (record { ip = host; port = p })
unfolding read_item entry
read_item-entry host p g i =
    let q = to_string_int-IsWord p in
    ap (read_split (entry host p))
      (split_last-append host (to_string_int p) (to_string_int-IsPlain p))
    ∙ read_split-words (entry host p) host (to_string_int p) g
    ∙ ap (read_parts (entry host p) (trim_ws host)) (trim_ws-word (to_string_int p) q)
    ∙ ap (λ h. read_parts (entry host p) h (to_string_int p)) (trim_ws-word host g)
    ∙ read_parts-words (entry host p) host (to_string_int p) g q
    ∙ read_port-to_string_int host p i

entry-scheme-IsWord : (host : Bytes) (p : ℤ) → IsWord host → IsWord (codes "tcp://" ++ entry host p)
unfolding is_space
entry-scheme-IsWord host p g = record {
  nonempty = λ e. cc;
  graph = (refl, (refl, (refl, (refl, (refl, (refl, (entry-IsWord host p g).graph))))));
}

-- An address `host:port` with blanks around it, bare or behind `tcp://`, is read back as the host
-- and the port, if the host is a word, the address does not itself begin with the scheme, and the
-- port is an `int`.
pub parse_peer_entry-entry :
    (before after host : Bytes) (p : ℤ)
    → All IsBlank before
    → All IsBlank after
    → IsWord host
    → IsInt p
    → after_tcp (entry host p) ≡ none
    → (parse_peer_entry (before ++ (entry host p ++ after))
        ≡ parsed (record { ip = host; port = p }))
      × (parse_peer_entry (before ++ (codes "tcp://" ++ entry host p ++ after))
          ≡ parsed (record { ip = host; port = p }))
unfolding parse_peer_entry without_tcp
parse_peer_entry-entry before after host p b e g i bare =
    let w = entry-IsWord host p g in
    let item = codes "tcp://" ++ entry host p in
    let parse = λ (s : Bytes). read_item (without_tcp s) in
    (
      ap parse (trim_ws_lem before (entry host p) after b w e)
          ∙ ap
              (λ o. read_item (elim o as (λ _. Bytes) [ none ↦ entry host p | some s ↦ trim_ws s ]))
              bare
          ∙ read_item-entry host p g i,
      ap parse (trim_ws_lem before item after b (entry-scheme-IsWord host p g) e)
          ∙ ap read_item (trim_ws-word (entry host p) w)
          ∙ read_item-entry host p g i,
    )
