-- ===== src/Dns/Rx/Laws.antt =====
-- That dns_rx comes to an end on every packet.
use netd_moduos.Common.{
  ℕ, zero, suc, ◌+◌, ◌<◌, ◌≡◌, ◌≢◌, ◌⊎◌, inl, inr, refl, List, ltb, arith, get_elem?, Bool-cases,
  Option-cases, ltb→lt,
}
use netd_moduos.Wire.Endian.{ntohs}
use netd_moduos.Wire.Memory.{load16, load32}
use netd_moduos.State.{Sys, spin}
use netd_moduos.Dns.Rx.{
  Skip, to, outside, unfinished, skip_qname, skip_labels, skip_name, Scan, endless, scan_record,
  scan_answers, scan, finish, dns_rx,
}

skip_qname_ends :
    (fuel : ℕ) (data' : List ℕ) (len p : ℕ)
    → 0 < fuel
    → len < fuel + p
    → skip_qname fuel data' len p ≢ unfinished
unfolding skip_qname
skip_qname_ends zero data' len p pos h = absurd (omega arith)
skip_qname_ends (suc fuel) data' len p pos h = elim (Bool-cases (ltb p len)) [
  | inr out ↦ ground arith
  | inl in' ↦
      let more : p < len = ltb→lt p len in' in
      elim (Option-cases (get_elem? data' p)) [
        | inl e ↦ ground arith
        | inr (b, e) ↦
            let ih = skip_qname_ends fuel data' len (p + 1 + b) (omega arith) (omega arith) in
            ground arith
      ]
]

skip_labels_ends :
    (fuel : ℕ) (data' : List ℕ) (len p : ℕ)
    → 0 < fuel
    → len < fuel + p
    → skip_labels fuel data' len p ≢ unfinished
unfolding skip_labels
skip_labels_ends zero data' len p pos h = absurd (omega arith)
skip_labels_ends (suc fuel) data' len p pos h = elim (Bool-cases (ltb p len)) [
  | inr out ↦ ground arith
  | inl in' ↦
      let more : p < len = ltb→lt p len in' in
      elim (Option-cases (get_elem? data' p)) [
        | inl e ↦ ground arith
        | inr (b, e) ↦
            let ih = skip_labels_ends fuel data' len (p + 1 + b) (omega arith) (omega arith) in
            ground arith
      ]
]

skip_name_ends : (data' : List ℕ) (len p : ℕ) → skip_name data' len p ≢ unfinished
unfolding skip_name
skip_name_ends data' len p =
    let ends = skip_labels_ends (len + 1) data' len p (omega arith) (omega arith) in
    elim (Option-cases (get_elem? data' p)) [ inl e ↦ ground arith | inr (b, e) ↦ ground arith ]

scan_record_ends :
    (next : ℕ → Scan) (data' : List ℕ) (len p : ℕ)
    → ((q : ℕ) → next q ≢ endless)
    → scan_record next data' len p ≢ endless
unfolding scan_record
scan_record_ends next data' len p ends = elim (Option-cases (load16 data' p)) [
  | inl e ↦ ground arith
  | inr (type, e) ↦ elim (Option-cases (load16 data' (p + 8))) [
    | inl e' ↦ ground arith
    | inr (rdlen, e') ↦ elim (Option-cases (load32 data' (p + 10))) [
      | inl e'' ↦ ground (arith, ends (p + 10 + ntohs rdlen))
      | inr (a, e'') ↦ ground (arith, ends (p + 10 + ntohs rdlen))
    ]
  ]
]

Skip-cases : (k : Skip) → k ≢ unfinished → (k ≡ outside) ⊎ ((q : ℕ) × (k ≡ to q))
Skip-cases outside h = inl refl
Skip-cases unfinished h = absurd (h refl)
Skip-cases (to q) h = inr (q, refl)

scan_answers_ends :
    (ancount : ℕ) (data' : List ℕ) (len p : ℕ) → scan_answers ancount data' len p ≢ endless
unfolding scan_answers
scan_answers_ends zero data' len p = ground arith
scan_answers_ends (suc left) data' len p = elim (Bool-cases (ltb p len)) [
  | inr out ↦ ground arith
  | inl in' ↦ elim (Skip-cases (skip_name data' len p) (skip_name_ends data' len p)) [
    | inl e ↦ ground arith
    | inr (q, e) ↦
        rw (in', scan_answers, e)
          (scan_record_ends (scan_answers left data' len) data' len q
            (scan_answers_ends left data' len))
  ]
]

-- Both loops over the names, and the loop over the answers, end on every packet.
pub scan_ends : (ancount : ℕ) (data' : List ℕ) (len : ℕ) → scan ancount data' len ≢ endless
unfolding scan
scan_ends ancount data' len =
    elim (Skip-cases (skip_qname (len + 1) data' len 12)
      (skip_qname_ends (len + 1) data' len 12 (omega arith) (omega arith))) [
        | inl e ↦ ground arith
        | inr (p, e) ↦ rw (scan, e) (scan_answers_ends ancount data' len p)
      ]

-- dns_rx comes to an end on every packet and in every state.
pub dns_rx_ends : (data' : List ℕ) (len : ℕ) (s : Sys) → dns_rx data' len s ≢ spin
unfolding dns_rx finish
dns_rx_ends data' len s = elim (Option-cases (load16 data' 0)) [
  | inl e ↦ ground arith
  | inr (txid, e_txid) ↦ elim (Option-cases (load16 data' 2)) [
    | inl e ↦ ground arith
    | inr (flags, e_flags) ↦ elim (Option-cases (load16 data' 6)) [
      | inl e ↦ ground arith
      | inr (ancount, e_ancount) ↦ ground (arith, scan_ends (ntohs ancount) data' len)
    ]
  ]
]
