-- ===== src/Dns/Query/Labels.antt =====
-- The query that dns_build_query writes holds the labels of the name.
use netd_moduos.Common.{
  ℕ, zero, suc, ◌+◌, ◌/◌, ◌%◌, ◌^◌, ◌≤◌, ◌<◌, ◌≡◌, ◌≢◌, refl, ap, sym, ◌∙◌, true, false, ◌||◌, List,
  [], ◌∷◌, ◌++◌, some, leb, ◌==◌, ne→not-eq, le→not-ltb, length, length-append, replicate, All,
  arith,
}
use mathlib.Core.List.{append-nil, append_assoc}
use netd_moduos.Wire.Endian.{htons, htons_bytes}
use netd_moduos.Wire.Fields.{be16}
use netd_moduos.Dns.Query.{
  split_label, skip_dot, built, add_label, add_labels, query_header, dns_build_query,
}
use netd_moduos.Dns.Rx.Message.{encode_labels}

-- The C string of a name: the labels with dots between them, a zero, and what can be read behind it.
abbrev pub dotted : List (List ℕ) → List ℕ → List ℕ
dotted [] rest = 0 ∷ rest
dotted (l ∷ []) rest = l ++ 0 ∷ rest
dotted (l ∷ m ∷ ls) rest = l ++ b'.' ∷ dotted (m ∷ ls) rest

-- A label with neither dots nor zeros, whose length is a byte.
abbrev pub IsText : List ℕ → Type 0
IsText l = (l ≢ []) × (length l < 256) × All (λ c. (c ≢ 0) × (c ≢ b'.')) l

split_label-append :
    (l : List ℕ) (c : ℕ) (cs : List ℕ)
    → All (λ c. (c ≢ 0) × (c ≢ b'.')) l
    → ((c == 0) || (c == b'.')) ≡ true
    → split_label (l ++ c ∷ cs) ≡ some (l, c ∷ cs)
unfolding split_label
split_label-append [] c cs ok stop = rw stop refl
split_label-append (x ∷ l) c cs ok stop =
    rw
      (
        ne→not-eq x 0 ok.0.0,
        ne→not-eq x b'.' ok.0.1,
        split_label,
        split_label-append l c cs ok.1 stop,
      )
      refl

-- The labels before the zero.
body : List (List ℕ) → List ℕ
body [] = []
body (l ∷ ls) = length l ∷ (l ++ body ls)

encode_labels-body : (ls : List (List ℕ)) → encode_labels ls ≡ body ls ++ 0 ∷ []
unfolding body encode_labels
encode_labels-body [] = refl
encode_labels-body (l ∷ ls) = rw (encode_labels-body ls) (simp append_assoc)

-- One round, on a label before a dot or the end.
add_labels_step :
    (max fuel c : ℕ) (out l cs : List ℕ)
    → IsText l
    → ((c == 0) || (c == b'.')) ≡ true
    → length out + 1 + length l + 5 < max
    → add_labels max (suc fuel) out (l ++ c ∷ cs)
      ≡ add_labels max fuel (out ++ length l ∷ l) (skip_dot (c ∷ cs))
unfolding add_labels add_label
add_labels_step max fuel c out [] cs ok stop room = absurd (ok.0 refl)
add_labels_step max fuel c out (x ∷ l) cs ok stop room =
    let fits : leb max (length out + 1 + length (x ∷ l) + 5) ≡ false = ground (arith, room) in
    let byte : length (x ∷ l) % 256 ≡ length (x ∷ l) = omega (arith, ok.1) in
    rw (ne→not-eq x 0 ok.2.0.0, add_labels, split_label-append (x ∷ l) c cs ok.2 stop, fits, byte)
      refl

add_labels-dotted :
    (max fuel : ℕ) (out : List ℕ) (ls : List (List ℕ)) (rest : List ℕ)
    → All IsText ls
    → length ls < fuel
    → length out + length (body ls) + 5 < max
    → add_labels max fuel out (dotted ls rest) ≡ built (out ++ body ls)
unfolding add_labels body skip_dot
add_labels-dotted max zero out ls rest ok enough room = absurd (omega (arith, enough))
add_labels-dotted max (suc fuel) out [] rest ok enough room = sym (ap built (append-nil out))
add_labels-dotted max (suc fuel) out (l ∷ []) rest ok enough room =
    let room' = length-append l [] in
    let longer = length-append out (length l ∷ l) in
    add_labels_step max fuel 0 out l rest ok.0 refl (omega (arith, room, room'))
    ∙ add_labels-dotted max fuel (out ++ length l ∷ l) [] rest tt (omega (arith, enough))
        (omega (arith, room, room', longer))
    ∙ ap built (append_assoc out (length l ∷ l) [])
add_labels-dotted max (suc fuel) out (l ∷ m ∷ ls) rest ok enough room =
    let room' = length-append l (body (m ∷ ls)) in
    let longer = length-append out (length l ∷ l) in
    add_labels_step max fuel b'.' out l (dotted (m ∷ ls) rest) ok.0 refl
      (omega (arith, room, room'))
    ∙ add_labels-dotted max fuel (out ++ length l ∷ l) (m ∷ ls) rest ok.1 (omega (arith, enough))
        (omega (arith, room, room', longer))
    ∙ ap built (append_assoc out (length l ∷ l) (body (m ∷ ls)))

length-dotted :
    (ls : List (List ℕ)) (rest : List ℕ) → All IsText ls → length ls ≤ length (dotted ls rest)
length-dotted [] rest ok = omega arith
length-dotted (l ∷ []) rest ok = omega (arith, length-append l (0 ∷ rest))
length-dotted (l ∷ m ∷ ls) rest ok =
    omega (arith, length-append l (b'.' ∷ dotted (m ∷ ls) rest), length-dotted (m ∷ ls) rest ok.1)

-- The header: the flag for recursion, and one question.
abbrev pub header_bytes : ℕ → List ℕ
header_bytes txid = be16 txid ++ (be16 0x0100 ++ (be16 1 ++ replicate 6 0))

query_header-header_bytes : (txid : ℕ) → txid < 2 ^ 16 → query_header txid ≡ header_bytes txid
unfolding query_header htons
query_header-header_bytes txid h =
    let low : htons txid % 256 ≡ txid / 256 = omega (arith, htons_bytes txid h) in
    let high : htons txid / 256 % 256 ≡ txid % 256 = omega (arith, htons_bytes txid h) in
    rw (low, high) refl

-- For labels of 1 to 255 bytes with neither dots nor zeros, which a name joins with dots, a 16-bit
-- transaction and a buffer with more room than the query takes, dns_build_query builds the header,
-- the labels each behind its length, the null label, and the type and class of an address.
pub dns_build_query-dotted :
    (max txid : ℕ) (ls : List (List ℕ)) (rest : List ℕ)
    → txid < 2 ^ 16
    → All IsText ls
    → 12 + length (encode_labels ls) + 4 < max
    → dns_build_query max txid (dotted ls rest)
      ≡ built (header_bytes txid ++ (encode_labels ls ++ (be16 1 ++ be16 1)))
unfolding dns_build_query
dns_build_query-dotted max txid ls rest h ok room =
    let labels = encode_labels-body ls in
    let size : length (encode_labels ls) ≡ length (body ls) + 1 =
      omega (arith, ap length labels, length-append (body ls) (0 ∷ [])) in
    let name = dotted ls rest in
    rw
      (
        le→not-ltb max 12 (omega (arith, room)),
        query_header-header_bytes txid h,
        add_labels-dotted max (length name + 1) (header_bytes txid) ls rest ok
            (omega (arith, length-dotted ls rest ok)) (omega (arith, room, size)),
        labels,
      )
      (simp append_assoc)
