-- ===== src/Dns/Query/Laws.antt =====
-- The query that dns_build_query writes: that it ends, and that it fits the buffer.
use netd_moduos.Common.{
  ℕ, zero, suc, ◌+◌, ◌-◌, ◌%◌, ◌≤◌, ◌<◌, ◌≡◌, ◌⊎◌, inl, inr, refl, true, false, ◌||◌, List, [], ◌∷◌,
  ◌++◌, some, ltb, ◌==◌, arith, length, length-append, Bool-cases, not-leb→lt,
}
use netd_moduos.Dns.Query.{
  split_label, skip_dot, Built, built, too_long, lacks_room, add_label, add_labels, query_header,
  query_tail, end_query, dns_build_query,
}

length-skip_dot-le : (cs : List ℕ) → length (skip_dot cs) ≤ length cs
unfolding skip_dot
length-skip_dot-le [] = omega arith
length-skip_dot-le (c ∷ cs) = ground arith

-- The end of the string stands in what can be read.
abbrev pub HasEnd : List ℕ → Type 0
HasEnd [] = ⊥
HasEnd (c ∷ cs) = (c ≡ 0) ⊎ HasEnd cs

-- A split of a string that ends is a label and the rest, which ends too and is no longer.
abbrev LabelCut : List ℕ → Type 0
LabelCut cs =
    (label rest : List ℕ) × (split_label cs ≡ some (label, rest))
    × HasEnd rest
    × (length rest ≤ length cs)

split_label-LabelCut : (cs : List ℕ) → HasEnd cs → LabelCut cs
unfolding split_label
split_label-LabelCut [] ends = absurd ends
split_label-LabelCut (c ∷ cs) ends = elim (Bool-cases ((c == 0) || (c == b'.'))) [
  | inl stop ↦ ([], c ∷ cs, rw (stop) refl, ends, omega arith)
  | inr go_on ↦
      let (label, rest, e, ends', le) = split_label-LabelCut cs (end_behind c cs ends go_on) in
      (c ∷ label, rest, rw (go_on, split_label, e) refl, ends', omega arith)
]
  where
    end_behind :
        (c : ℕ) (cs : List ℕ) → HasEnd (c ∷ cs) → ((c == 0) || (c == b'.')) ≡ false → HasEnd cs
    end_behind c cs (inl is_end) h = ground arith
    end_behind c cs (inr later) h = later

skip_dot-HasEnd : (cs : List ℕ) → HasEnd cs → HasEnd (skip_dot cs)
unfolding skip_dot
skip_dot-HasEnd [] ends = ends
skip_dot-HasEnd (c ∷ cs) (inr later) = elim (Bool-cases (c == b'.')) [
  | inl dot ↦ rw (dot) later
  | inr other ↦ rw (other) (inr later)
]
skip_dot-HasEnd (c ∷ cs) (inl is_end) = elim (Bool-cases (c == b'.')) [
  | inl dot ↦ absurd (ground (arith, is_end, dot))
  | inr other ↦ rw (other) (inl is_end)
]

-- Every round takes a character of the string.
abbrev Shorter : ℕ → List ℕ → Type 0
Shorter c cs =
    (label rest : List ℕ) × (split_label (c ∷ cs) ≡ some (label, rest))
    × HasEnd (skip_dot rest)
    × (length (skip_dot rest) < suc (length cs))

drops_dot :
    (c : ℕ) (cs : List ℕ) → (c == b'.') ≡ true → length (skip_dot (c ∷ cs)) < suc (length cs)
unfolding skip_dot
drops_dot c cs dot = rw (dot) (omega arith)

split_label-Shorter : (c : ℕ) (cs : List ℕ) → HasEnd (c ∷ cs) → (c == 0) ≡ false → Shorter c cs
unfolding split_label
split_label-Shorter c cs (inl is_end) other = absurd (ground (arith, is_end, other))
split_label-Shorter c cs (inr later) other = elim (Bool-cases (c == b'.')) [
  | inl dot ↦
      ([], c ∷ cs, rw (other, dot) refl, skip_dot-HasEnd (c ∷ cs) (inr later), drops_dot c cs dot)
  | inr letter ↦
      let (label, rest, e, ends, le) = split_label-LabelCut cs later in
      (
        c ∷ label,
        rest,
        rw (other, letter, split_label, e) refl,
        skip_dot-HasEnd rest ends,
        omega (arith, length-skip_dot-le rest),
      )
]

-- What a query that fits looks like to its caller.
abbrev pub Fits : ℕ → Built → Type 0
Fits max b = (b ≡ too_long) ⊎ ((q : List ℕ) × (b ≡ built q) × (length q ≤ max))

-- The loop ends, and leaves room for the five bytes at the end.
add_labels-Fits :
    (max room fuel : ℕ) (out name : List ℕ)
    → room + 5 ≡ max
    → HasEnd name
    → length name < fuel
    → length out ≤ room
    → Fits room (add_labels max fuel out name)
unfolding add_labels add_label
add_labels-Fits max room zero out name e ends h le = absurd (omega arith)
add_labels-Fits max room (suc fuel) out [] e ends h le = absurd ends
add_labels-Fits max room (suc fuel) out (c ∷ cs) e ends h le = elim (Bool-cases (c == 0)) [
  | inl last ↦ inr (out, rw (last) refl, le)
  | inr other ↦
      let (label, rest, e', ends', less) = split_label-Shorter c cs ends other in
      let out' = out ++ ((length label % 256) ∷ label) in
      elim (Bool-cases (lacks_room max out label)) [
        | inl full ↦ inl (rw (other, e', full) refl)
        | inr fits ↦
            let more : length out + 1 + length label + 5 < max =
              not-leb→lt max (length out + 1 + length label + 5) fits in
            let short : length out' ≤ room =
              omega (arith, length-append out ((length label % 256) ∷ label)) in
            rw (other, e', fits)
              (add_labels-Fits max room fuel out' (skip_dot rest) e ends' (omega arith) short)
      ]
]

end_query-Fits : (room max : ℕ) (b : Built) → room + 5 ≡ max → Fits room b → Fits max (end_query b)
end_query-Fits room max b e (inl h) = inl (rw (h) refl)
end_query-Fits room max b e (inr (q, h, le)) =
    inr (q ++ query_tail, rw (h) refl, omega (arith, length-append q query_tail))

-- For every string that ends and every buffer of at least 17 bytes, building the query ends: with
-- an error, or with a query that is no longer than the buffer.
pub dns_build_query-Fits :
    (max txid : ℕ) (name : List ℕ)
    → HasEnd name
    → 17 ≤ max
    → Fits max (dns_build_query max txid name)
unfolding dns_build_query query_header
dns_build_query-Fits max txid name ends le = elim (Bool-cases (ltb max 12)) [
  | inl small ↦ inl (rw (small) refl)
  | inr enough ↦ rw (enough) (
      end_query-Fits (max - 5) max (add_labels max (length name + 1) (query_header txid) name)
        (omega arith)
        (add_labels-Fits max (max - 5) (length name + 1) (query_header txid) name (omega arith) ends
          (omega arith) (omega arith)))
]
