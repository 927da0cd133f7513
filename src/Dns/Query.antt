-- ===== src/Dns/Query.antt =====
-- dns_build_query of dns.c.
pub mod Laws
pub mod Ends
pub mod Labels
use netd_moduos.Common.{
  ℕ, zero, suc, ◌+◌, ◌%◌, Bool, ◌||◌, List, [], ◌∷◌, ◌++◌, Option, none, some, ltb, leb, ◌==◌,
  if◌then◌else◌, length, replicate,
}
use netd_moduos.Wire.Endian.{htons}
use netd_moduos.Wire.Memory.{store16}

-- The characters of a string up to the next dot or its end, and what can be read from there on;
-- `none` if neither stands in what can be read.
unfoldable pub split_label : List ℕ → Option (List ℕ × List ℕ)
split_label [] = none
split_label (c ∷ cs) =
    let rest = split_label cs in
    if (c == 0) || (c == b'.')
    then some ([], c ∷ cs)
    else elim rest [ none ↦ none | some r ↦ some (c ∷ r.0, r.1) ]

-- `if (*s == '.') s++;`
unfoldable pub skip_dot : List ℕ → List ℕ
skip_dot [] = []
skip_dot (c ∷ cs) = if c == b'.' then cs else c ∷ cs

-- `outside` is a read past what can be read from `name` on.
pub data Built : Type 0 where
  built : List ℕ → Built
  too_long outside unfinished : Built

-- `p - buf + 1 + label_len + 5 >= max`: no room for the label and the end of the query.
abbrev pub lacks_room : ℕ → List ℕ → List ℕ → Bool
lacks_room max out label = leb max (length out + 1 + length label + 5)

-- One round, on the label that it has split off; `next` is the next round.
unfoldable pub add_label : (List ℕ → List ℕ → Built) → ℕ → List ℕ → Option (List ℕ × List ℕ) → Built
add_label next max out none = outside
add_label next max out (some (label, rest)) =
    if lacks_room max out label
    then too_long
    else next (out ++ ((length label % 256) ∷ label)) (skip_dot rest)

-- The loop over the labels; `out` is what is written so far, and `name` what can be read from `s`
-- on. Each round takes a character of the name, so that as many rounds as it has, and one more, are
-- enough.
unfoldable pub add_labels : ℕ → ℕ → List ℕ → List ℕ → Built
add_labels max zero out name = unfinished
add_labels max (suc fuel) out [] = outside
add_labels max (suc fuel) out (c ∷ cs) =
    if c == 0
    then built out
    else add_label (λ out' rest. add_labels max fuel out' rest) max out (split_label (c ∷ cs))

unfoldable pub query_header : ℕ → List ℕ
query_header txid =
    store16 (store16 (store16 (replicate 12 0) 0 (htons txid)) 2 (htons 0x0100)) 4 (htons 1)

-- The root label, QTYPE A and QCLASS IN.
abbrev pub query_tail : List ℕ
query_tail = 0 ∷ 0 ∷ 1 ∷ 0 ∷ 1 ∷ []

abbrev pub end_query : Built → Built
end_query (built out) = built (out ++ query_tail)
end_query too_long = too_long
end_query outside = outside
end_query unfinished = unfinished

-- dns_build_query; `too_long` is its -1, and `name` what can be read from the string on.
unfoldable pub dns_build_query : ℕ → ℕ → List ℕ → Built
dns_build_query max txid name =
    if ltb max 12
    then too_long
    else end_query (add_labels max (length name + 1) (query_header txid) name)
