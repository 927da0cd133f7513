-- ===== src/Dns/Rx.antt =====
-- dns_rx of dns.c.
pub mod Message
pub mod Answers
pub mod Response
pub mod Laws
use netd_moduos.Common.{
  ℕ, zero, suc, ◌+◌, bit_and, Bool, true, false, ◌&&◌, not, List, Option, none, some, ltb, leb,
  ◌==◌, if◌then◌else◌, length, get_elem?,
}
use netd_moduos.Wire.Endian.{ntohs, ntohl}
use netd_moduos.Wire.Memory.{load16, load32}
use netd_moduos.State.{
  DnsDone, pending, found, not_found, Net, M, fault, spin, pure, skip, need, gets, modify, ◌>>=◌,
  ◌>>◌, and_then,
}

-- Where the pointer `p` stands after a name, as an index into `data`.
pub data Skip : Type 0 where
  to : ℕ → Skip
  outside unfinished : Skip

-- `(*p & 0xC0) == 0xC0`.
abbrev pub is_pointer : ℕ → Bool
is_pointer b = bit_and b 0xc0 == 0xc0

-- The loop over the question's name. A pointer ends it and leads to the answers two bytes on; the
-- end of the name leads there past the null label, QTYPE and QCLASS.
unfoldable pub skip_qname : ℕ → List ℕ → ℕ → ℕ → Skip
skip_qname zero data' len p = unfinished
skip_qname (suc fuel) data' len p =
    let on : ℕ → Skip = skip_qname fuel data' len in
    if ltb p len
    then (elim (get_elem? data' p) [
      | none ↦ outside
      | some b ↦ if b == 0 then to (p + 5) else if is_pointer b then to (p + 2) else on (p + 1 + b)
    ])
    else to (p + 5)

-- The loop over an answer's name that does not begin with a pointer, and the `p++` behind it.
unfoldable pub skip_labels : ℕ → List ℕ → ℕ → ℕ → Skip
skip_labels zero data' len p = unfinished
skip_labels (suc fuel) data' len p =
    let on : ℕ → Skip = skip_labels fuel data' len in
    if ltb p len
    then (elim (get_elem? data' p) [
      | none ↦ outside
      | some b ↦ if b == 0 then to (p + 1) else on (p + 1 + b)
    ])
    else to (p + 1)

-- The name of an answer, at `p < end`.
unfoldable pub skip_name : List ℕ → ℕ → ℕ → Skip
skip_name data' len p = elim (get_elem? data' p) [
  | none ↦ outside
  | some b ↦ if is_pointer b then to (p + 2) else skip_labels (len + 1) data' len p
]

pub data Scan : Type 0 where
  address : ℕ → Scan
  no_address beyond endless : Scan

-- An answer behind its name: its type, length and data; `next` goes on to the next one.
unfoldable pub scan_record : (ℕ → Scan) → List ℕ → ℕ → ℕ → Scan
scan_record next data' len p = if ltb len (p + 10) then no_address else (elim (load16 data' p) [
  | none ↦ beyond
  | some type ↦ elim (load16 data' (p + 8)) [
    | none ↦ beyond
    | some rdlen ↦
        if (ntohs type == 1) && ((ntohs rdlen == 4) && leb (p + 14) len)
        then (elim (load32 data' (p + 10)) [ none ↦ beyond | some a ↦ address (ntohl a) ])
        else next (p + 10 + ntohs rdlen)
  ]
])

-- `for (i = 0; i < ancount && p < end; i++)`: the first A record with four bytes of data.
unfoldable pub scan_answers : ℕ → List ℕ → ℕ → ℕ → Scan
scan_answers zero data' len p = no_address
scan_answers (suc left) data' len p =
    let next : ℕ → Scan = scan_answers left data' len in
    if ltb p len
    then (elim (skip_name data' len p) [
      | outside ↦ beyond
      | unfinished ↦ endless
      | to q ↦ scan_record next data' len q
    ])
    else no_address

-- Both loops, from the byte after the header on.
unfoldable pub scan : ℕ → List ℕ → ℕ → Scan
scan ancount data' len = elim (skip_qname (len + 1) data' len 12) [
  | outside ↦ beyond
  | unfinished ↦ endless
  | to p ↦ scan_answers ancount data' len p
]

unfoldable pub finish : Scan → M (Unit {0})
finish (address ip) = modify (λ n. record n { dns_result = ip; dns_done = found })
finish no_address = modify (λ n. record n { dns_done = not_found })
finish beyond = λ s. fault
finish endless = λ s. spin

-- dns_rx; `data'` is what can be read from `data` on, and `len` what the packet claims.
unfoldable pub dns_rx : List ℕ → ℕ → M (Unit {0})
dns_rx data' len = if ltb len 12 then skip else (do
  txid ← need (load16 data' 0)
  flags ← need (load16 data' 2)
  ancount ← need (load16 data' 6)
  expected ← gets (λ n. n.dns_txid)
  if not (ntohs txid == expected)
      then skip
      else if bit_and (ntohs flags) 0x8000 == 0
      then skip
      else if ntohs ancount == 0
      then modify (λ n. record n { dns_done = not_found })
      else finish (scan (ntohs ancount) data' len))
