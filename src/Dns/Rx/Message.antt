-- ===== src/Dns/Rx/Message.antt =====
-- Whole DNS messages of a server as bytes, and how dns_rx (dns.c) skips their names.
use netd_moduos.Common.{
  ℕ, zero, suc, ◌+◌, ◌<◌, ◌≡◌, ◌≢◌, refl, ap, ◌∙◌, true, false, List, [], ◌∷◌, ◌++◌, lt→ltb,
  ne→not-eq, length, length-append, get_elem?-after, All, arith,
}
use mathlib.Core.List.{append_assoc}
use netd_moduos.Dns.Rx.{to, is_pointer, skip_qname, skip_labels, skip_name}

-- The labels of a name, each behind its length, and the zero.
unfoldable pub encode_labels : List (List ℕ) → List ℕ
encode_labels [] = 0 ∷ []
encode_labels (l ∷ ls) = length l ∷ (l ++ encode_labels ls)

-- Labels have 1 to 63 bytes; a longer length would be taken for a pointer.
abbrev pub IsLabel : List ℕ → Type 0
IsLabel l = (length l ≢ 0) × (is_pointer (length l) ≡ false)

-- A name of an answer: written out, or a pointer to a name before it.
pub data Name : Type 0 where
  written : List (List ℕ) → Name
  pointer : ℕ → ℕ → Name

unfoldable pub encode_name : Name → List ℕ
encode_name (written ls) = encode_labels ls
encode_name (pointer high low) = high ∷ low ∷ []

abbrev pub IsName : Name → Type 0
IsName (written ls) = All IsLabel ls
IsName (pointer high low) = is_pointer high ≡ true

inside_labels :
    (ls : List (List ℕ)) (front rest whole : List ℕ)
    → whole ≡ front ++ (encode_labels ls ++ rest)
    → length whole ≡ length front + length (encode_labels ls) + length rest
inside_labels ls front rest whole e = omega (
  arith,
  ap length e,
  length-append front (encode_labels ls ++ rest),
  length-append (encode_labels ls) rest,
)

skip_labels-encode_labels :
    (fuel : ℕ) (ls : List (List ℕ)) (front rest whole : List ℕ) (p : ℕ)
    → All IsLabel ls
    → whole ≡ front ++ (encode_labels ls ++ rest)
    → p ≡ length front
    → length whole < fuel + p
    → skip_labels fuel whole (length whole) p ≡ to (p + length (encode_labels ls))
unfolding skip_labels encode_labels
skip_labels-encode_labels zero ls front rest whole p ok e at_p enough =
    absurd (omega (arith, inside_labels ls front rest whole e))
skip_labels-encode_labels (suc fuel) [] front rest whole p ok e at_p enough =
    let size = inside_labels [] front rest whole e in
    rw
      (
        lt→ltb p (length whole) (omega (arith, size)),
        skip_labels,
        get_elem?-after whole front 0 (0 ∷ rest) p 0 e (omega (arith, at_p)) refl,
      )
      refl
skip_labels-encode_labels (suc fuel) (l ∷ ls) front rest whole p ok e at_p enough =
    let size = inside_labels (l ∷ ls) front rest whole e in
    let front' : List ℕ = front ++ length l ∷ l in
    let whole' : whole ≡ front' ++ (encode_labels ls ++ rest) = e ∙ simp append_assoc in
    let more = length-append l (encode_labels ls) in
    let next =
      skip_labels-encode_labels fuel ls front' rest whole (p + 1 + length l) ok.1 whole'
        (omega (arith, at_p, length-append front (length l ∷ l))) (omega arith) in
    let sum : p + 1 + length l + length (encode_labels ls)
        ≡ p + suc (length (l ++ encode_labels ls)) =
      omega (arith, more) in
    rw
      (
        lt→ltb p (length whole) (omega (arith, size)),
        skip_labels,
        get_elem?-after whole front (length l) _ p 0 e (omega (arith, at_p)) refl,
        ne→not-eq (length l) 0 ok.0.0,
        next,
        sum,
      )
      refl

pub skip_qname-encode_labels :
    (fuel : ℕ) (ls : List (List ℕ)) (front rest whole : List ℕ) (p : ℕ)
    → All IsLabel ls
    → whole ≡ front ++ (encode_labels ls ++ rest)
    → p ≡ length front
    → length whole < fuel + p
    → skip_qname fuel whole (length whole) p ≡ to (p + length (encode_labels ls) + 4)
unfolding skip_qname encode_labels
skip_qname-encode_labels zero ls front rest whole p ok e at_p enough =
    absurd (omega (arith, inside_labels ls front rest whole e))
skip_qname-encode_labels (suc fuel) [] front rest whole p ok e at_p enough =
    let size = inside_labels [] front rest whole e in
    let sum : p + 5 ≡ p + 1 + 4 = omega arith in
    rw
      (
        lt→ltb p (length whole) (omega (arith, size)),
        skip_qname,
        get_elem?-after whole front 0 (0 ∷ rest) p 0 e (omega (arith, at_p)) refl,
        sum,
      )
      refl
skip_qname-encode_labels (suc fuel) (l ∷ ls) front rest whole p ok e at_p enough =
    let size = inside_labels (l ∷ ls) front rest whole e in
    let front' : List ℕ = front ++ length l ∷ l in
    let whole' : whole ≡ front' ++ (encode_labels ls ++ rest) = e ∙ simp append_assoc in
    let more = length-append l (encode_labels ls) in
    let next =
      skip_qname-encode_labels fuel ls front' rest whole (p + 1 + length l) ok.1 whole'
        (omega (arith, at_p, length-append front (length l ∷ l))) (omega arith) in
    let sum : p + 1 + length l + length (encode_labels ls) + 4
        ≡ p + suc (length (l ++ encode_labels ls)) + 4 =
      omega (arith, more) in
    rw
      (
        lt→ltb p (length whole) (omega (arith, size)),
        skip_qname,
        get_elem?-after whole front (length l) _ p 0 e (omega (arith, at_p)) refl,
        ne→not-eq (length l) 0 ok.0.0,
        ok.0.1,
        next,
        sum,
      )
      refl

not_pointer :
    (ls : List (List ℕ))
    → All IsLabel ls
    → (b : ℕ) × (bs : List ℕ) × (encode_labels ls ≡ b ∷ bs) × (is_pointer b ≡ false)
unfolding encode_labels
not_pointer [] ok = (0, [], refl, refl)
not_pointer (l ∷ ls) ok = (length l, l ++ encode_labels ls, refl, ok.0.1)

pub skip_name-encode_name :
    (name : Name) (front rest whole : List ℕ) (p : ℕ)
    → IsName name
    → whole ≡ front ++ (encode_name name ++ rest)
    → p ≡ length front
    → skip_name whole (length whole) p ≡ to (p + length (encode_name name))
unfolding skip_name encode_name
skip_name-encode_name (pointer high low) front rest whole p ok e at_p =
    rw
      (
        skip_name,
        get_elem?-after whole front high (high ∷ low ∷ rest) p 0 e (omega (arith, at_p)) refl,
        ok,
      )
      refl
skip_name-encode_name (written ls) front rest whole p ok e at_p =
    let (b, bs, first, no') = not_pointer ls ok in
    let here =
      get_elem?-after whole front b (encode_labels ls ++ rest) p 0 e (omega (arith, at_p))
        (rw first refl) in
    rw (skip_name, here, no')
      (skip_labels-encode_labels (length whole + 1) ls front rest whole p ok e at_p
        (omega (arith, at_p)))
