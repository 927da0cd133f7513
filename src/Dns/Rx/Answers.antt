-- ===== src/Dns/Rx/Answers.antt =====
-- The first address among the answers of a whole message is the one that dns_rx (dns.c) takes.
use netd_moduos.Common.{
  ℕ, ◌+◌, ◌^◌, ◌≤◌, ◌<◌, ◌≡◌, refl, ap, ◌∙◌, true, false, ◌&&◌, List, [], ◌∷◌, ◌++◌, some, leb,
  lt→ltb, le→not-ltb, ◌==◌, length, length-append, All, arith,
}
use mathlib.Core.List.{append_assoc}
use netd_moduos.Wire.Memory.{load16, load32}
use netd_moduos.Wire.Fields.{
  be16, be32, swapped16, swapped32, load16_field, load32_field, ntohs-swapped16, ntohl-swapped32,
}
use netd_moduos.Dns.Rx.{Scan, address, no_address, scan_record, scan_answers}
use netd_moduos.Dns.Rx.Message.{
  encode_labels, Name, written, pointer, encode_name, IsName, skip_name-encode_name,
}

-- The data of a resource record: an address, or another type's data, or an address's type with data
-- of another length.
pub data Data : Type 0 where
  a_record : ℕ → Data
  other : ℕ → List ℕ → Data

abbrev pub type_number : Data → ℕ
type_number (a_record ip) = 1
type_number (other type bytes) = type

abbrev pub data_bytes : Data → List ℕ
data_bytes (a_record ip) = be32 ip
data_bytes (other type bytes) = bytes

-- `between` is the class and the time to live.
pub record Answer : Type 0 where
  pub name : Name
  pub between : List ℕ
  pub content : Data

abbrev pub IsData : Data → Type 0
IsData (a_record ip) = ip < 2 ^ 32
IsData (other type bytes) =
    (type < 2 ^ 16) × (length bytes < 2 ^ 16) × (((type == 1) && (length bytes == 4)) ≡ false)

abbrev pub IsAnswer : Answer → Type 0
IsAnswer a = IsName a.name × (length a.between ≡ 6) × IsData a.content

-- The part of an answer behind its name.
abbrev pub encode_record : Answer → List ℕ
encode_record a =
    be16 (type_number a.content)
    ++ (a.between ++ (be16 (length (data_bytes a.content)) ++ data_bytes a.content))

unfoldable pub encode_answers : List Answer → List ℕ
encode_answers [] = []
encode_answers (a ∷ as') = encode_name a.name ++ (encode_record a ++ encode_answers as')

-- The address of the first answer that has one; `rest` is what the others give.
abbrev pub or_address : Data → Scan → Scan
or_address (a_record ip) rest = address ip
or_address (other type bytes) rest = rest

unfoldable pub first_address : List Answer → Scan
first_address [] = no_address
first_address (a ∷ as') = or_address a.content (first_address as')

length-encode_record :
    (a : Answer)
    → length a.between ≡ 6
    → length (encode_record a) ≡ 10 + length (data_bytes a.content)
length-encode_record a six = omega (
  arith,
  six,
  length-append a.between (be16 (length (data_bytes a.content)) ++ data_bytes a.content),
)

-- The fields behind a name at `q`.
load_type :
    (a : Answer) (front rest whole : List ℕ) (q : ℕ)
    → whole ≡ front ++ (encode_record a ++ rest)
    → q ≡ length front
    → load16 whole q ≡ some (swapped16 (type_number a.content))
load_type a front rest whole q e at_q =
    load16_field whole front
      (a.between ++ (be16 (length (data_bytes a.content)) ++ (data_bytes a.content ++ rest))) q
      (type_number a.content) (e ∙ simp append_assoc) at_q

load_length :
    (a : Answer) (front rest whole : List ℕ) (q : ℕ)
    → whole ≡ front ++ (encode_record a ++ rest)
    → q ≡ length front
    → length a.between ≡ 6
    → load16 whole (q + 8) ≡ some (swapped16 (length (data_bytes a.content)))
load_length a front rest whole q e at_q six =
    let front' = front ++ (be16 (type_number a.content) ++ a.between) in
    load16_field whole front' (data_bytes a.content ++ rest) (q + 8) (length (data_bytes a.content))
      (e ∙ simp append_assoc)
      (omega (arith, at_q, six, length-append front (be16 (type_number a.content) ++ a.between)))

load_address :
    (name : Name) (between : List ℕ) (ip : ℕ) (front rest whole : List ℕ) (q : ℕ)
    → whole
      ≡ front
        ++ (encode_record (record { name = name; between = between; content = a_record ip })
            ++ rest)
    → q ≡ length front
    → length between ≡ 6
    → load32 whole (q + 10) ≡ some (swapped32 ip)
load_address name between ip front rest whole q e at_q six =
    let front' = front ++ (be16 1 ++ (between ++ be16 4)) in
    load32_field whole front' rest (q + 10) ip (e ∙ simp append_assoc) (
      omega (
        arith,
        at_q,
        six,
        length-append front (be16 1 ++ (between ++ be16 4)),
        length-append between (be16 4),
      ))

leb_iff : (a b : ℕ) → a ≤ b → leb a b ≡ true
leb_iff a b h = ground arith

length-whole :
    (a : Answer) (front rest whole : List ℕ)
    → whole ≡ front ++ (encode_record a ++ rest)
    → length a.between ≡ 6
    → length whole ≡ length front + 10 + length (data_bytes a.content) + length rest
length-whole a front rest whole e six = omega (
  arith,
  ap length e,
  length-append front (encode_record a ++ rest),
  length-append (encode_record a) rest,
  length-encode_record a six,
)

scan_record-encode_record :
    (next : ℕ → Scan) (name : Name) (between : List ℕ) (content : Data) (front rest whole : List ℕ)
    (q : ℕ)
    → let a : Answer = record { name = name; between = between; content = content } in
      IsAnswer a
      → whole ≡ front ++ (encode_record a ++ rest)
      → q ≡ length front
      → scan_record next whole (length whole) q
        ≡ or_address content (next (q + length (encode_record a)))
unfolding scan_record
scan_record-encode_record next name between (a_record ip) front rest whole q ok e at_q =
    let a : Answer = record { name = name; between = between; content = a_record ip } in
    let six = ok.1 in
    let size = length-whole a front rest whole e six in
    rw
      (
        le→not-ltb (length whole) (q + 10) (omega (arith, size, at_q)),
        scan_record,
        load_type a front rest whole q e at_q,
        load_length a front rest whole q e at_q six,
        ntohs-swapped16 1 (omega arith),
        ntohs-swapped16 4 (omega arith),
        leb_iff (q + 14) (length whole) (omega (arith, size, at_q)),
        load_address name between ip front rest whole q e at_q six,
        ntohl-swapped32 ip ok.2,
      )
      refl
scan_record-encode_record next name between (other type bytes) front rest whole q ok e at_q =
    let a : Answer = record { name = name; between = between; content = other type bytes } in
    let six = ok.1 in
    let size = length-whole a front rest whole e six in
    let differs : ((type == 1) && ((length bytes == 4) && leb (q + 14) (length whole))) ≡ false =
      ground (arith, ok.2.2) in
    let place : q + 10 + length bytes ≡ q + length (encode_record a) =
      omega (arith, length-encode_record a six) in
    rw
      (
        le→not-ltb (length whole) (q + 10) (omega (arith, size, at_q)),
        scan_record,
        load_type a front rest whole q e at_q,
        load_length a front rest whole q e at_q six,
        ntohs-swapped16 type ok.2.0,
        ntohs-swapped16 (length bytes) ok.2.1,
        differs,
        place,
      )
      refl

name_first : (name : Name) → 0 < length (encode_name name)
unfolding encode_name encode_labels
name_first (pointer high low) = omega arith
name_first (written []) = omega arith
name_first (written (l ∷ ls)) = omega arith

pub scan_answers-encode_answers :
    (as' : List Answer) (front rest whole : List ℕ) (p : ℕ)
    → All IsAnswer as'
    → whole ≡ front ++ (encode_answers as' ++ rest)
    → p ≡ length front
    → scan_answers (length as') whole (length whole) p ≡ first_address as'
unfolding scan_answers encode_answers first_address
scan_answers-encode_answers [] front rest whole p ok e at_p = refl
scan_answers-encode_answers (a ∷ as') front rest whole p ok e at_p =
    let name_rest = encode_record a ++ (encode_answers as' ++ rest) in
    let e1 : whole ≡ front ++ (encode_name a.name ++ name_rest) = e ∙ simp append_assoc in
    let front1 = front ++ encode_name a.name in
    let e2 : whole ≡ front1 ++ name_rest = e1 ∙ simp append_assoc in
    let front2 = front1 ++ encode_record a in
    let e3 : whole ≡ front2 ++ (encode_answers as' ++ rest) = e2 ∙ simp append_assoc in
    let at1 = length-append front (encode_name a.name) in
    let at2 = length-append front1 (encode_record a) in
    let size = omega_size whole front (encode_name a.name) name_rest e1 in
    let q = p + length (encode_name a.name) in
    rw
      (
        lt→ltb p (length whole) (omega (arith, size, at_p, name_first a.name)),
        scan_answers,
        skip_name-encode_name a.name front name_rest whole p ok.0.0 e1 at_p,
      )
      (scan_record-encode_record (scan_answers (length as') whole (length whole)) a.name a.between
          a.content front1 (encode_answers as' ++ rest) whole q ok.0 e2 (omega (arith, at1, at_p))
        ∙ ap (or_address a.content) (
            scan_answers-encode_answers as' front2 rest whole (q + length (encode_record a)) ok.1 e3
              (omega (arith, at1, at2, at_p))))
  where
    omega_size :
        (whole front name rest : List ℕ)
        → whole ≡ front ++ (name ++ rest)
        → length whole ≡ length front + length name + length rest
    omega_size whole front name rest e =
        omega (arith, ap length e, length-append front (name ++ rest), length-append name rest)
