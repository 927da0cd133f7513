-- ===== src/Dns/Query/Ends.antt =====
-- dns_build_query comes to an end, also where the name has none.
use netd_moduos.Common.{
  ℕ, zero, suc, ◌+◌, ◌%◌, ◌≤◌, ◌<◌, ◌≡◌, ◌≢◌, inl, inr, false, List, [], ◌∷◌, ◌++◌, some, ltb, ◌==◌,
  arith, length, Bool-cases, Option-cases,
}
use netd_moduos.Dns.Query.{
  split_label, skip_dot, Built, built, too_long, outside, unfinished, lacks_room, add_label,
  add_labels, query_header, end_query, dns_build_query,
}

split_label_le :
    (cs label rest : List ℕ) → split_label cs ≡ some (label, rest) → length rest ≤ length cs
unfolding split_label
split_label_le [] label rest e = cc
split_label_le (c ∷ cs) label rest e = elim (Option-cases (split_label cs)) [
  | inl none' ↦ ground (arith, none')
  | inr ((l, r), some') ↦ ground (arith, split_label_le cs l r some')
]

-- Behind a character that does not end the string, the next round has less to read.
next_shorter :
    (c : ℕ) (cs label rest : List ℕ)
    → (c == 0) ≡ false
    → split_label (c ∷ cs) ≡ some (label, rest)
    → length (skip_dot rest) < suc (length cs)
unfolding split_label skip_dot
next_shorter c cs label [] other e = omega arith
next_shorter c cs label (d ∷ ds) other e = elim (Option-cases (split_label cs)) [
  | inl none' ↦ ground (arith, none')
  | inr ((l, r), some') ↦ ground (arith, split_label_le cs l r some')
]

add_labels_ends :
    (max fuel : ℕ) (out name : List ℕ)
    → length name < fuel
    → add_labels max fuel out name ≢ unfinished
unfolding add_labels add_label
add_labels_ends max zero out name h = absurd (omega arith)
add_labels_ends max (suc fuel) out [] h = ground arith
add_labels_ends max (suc fuel) out (c ∷ cs) h = elim (Bool-cases (c == 0)) [
  | inl last ↦ rw (last) (λ e. cc)
  | inr other ↦ elim (Option-cases (split_label (c ∷ cs))) [
    | inl none' ↦ rw (other, none') (λ e. cc)
    | inr ((label, rest), e) ↦
        let less = next_shorter c cs label rest other e in
        let ih =
          add_labels_ends max fuel (out ++ ((length label % 256) ∷ label)) (skip_dot rest)
            (omega arith) in
        elim (Bool-cases (lacks_room max out label)) [
          | inl full ↦ rw (other, e, full) (λ e'. cc)
          | inr fits ↦ rw (other, e, fits) ih
        ]
  ]
]

end_query_ends : (b : Built) → b ≢ unfinished → end_query b ≢ unfinished
end_query_ends (built out) h = λ e. cc
end_query_ends too_long h = λ e. cc
end_query_ends outside h = λ e. cc
end_query_ends unfinished h = h

pub dns_build_query_ends :
    (max txid : ℕ) (name : List ℕ) → dns_build_query max txid name ≢ unfinished
unfolding dns_build_query
dns_build_query_ends max txid name = elim (Bool-cases (ltb max 12)) [
  | inl small ↦ rw (small) (λ e. cc)
  | inr enough ↦ rw (enough) (
      end_query_ends _
        (add_labels_ends max (length name + 1) (query_header txid) name (omega arith)))
]
