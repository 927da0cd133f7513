-- ===== src/Dns/Rx/Response.antt =====
-- What dns_rx (dns.c) makes of a whole response.
use netd_moduos.Common.{
  ℕ, ◌+◌, ◌^◌, ◌≤◌, ◌<◌, ◌≡◌, ◌≢◌, refl, ap, sym, ◌∙◌, true, List, [], ◌∷◌, ◌++◌, Option, none,
  some, le→not-ltb, ◌==◌, ==_iff, ne→not-eq, if◌then◌else◌, length, length-append, All, bit_and,
  arith, Bool-cases, inl, inr,
}
use mathlib.Core.List.{append_assoc}
use netd_moduos.Wire.Memory.{load16}
use netd_moduos.Wire.Fields.{be16, swapped16, load16_field, ntohs-swapped16}
use netd_moduos.State.{found, not_found, Net, Sys, done, modify}
use netd_moduos.Dns.Rx.{Scan, address, no_address, scan, finish, dns_rx}
use netd_moduos.Dns.Rx.Message.{encode_labels, IsLabel, skip_qname-encode_labels}
use netd_moduos.Dns.Rx.Answers.{
  Data, a_record, other, Answer, IsAnswer, encode_answers, or_address, first_address,
  scan_answers-encode_answers,
}

-- A response: `asked` are the type and the class of the question, `counts` are QDCOUNT and, behind
-- ANCOUNT, NSCOUNT and ARCOUNT, and `rest` are the sections behind the answers.
pub record Response : Type 0 where
  pub txid : ℕ
  pub flags : ℕ
  pub qdcount : ℕ
  pub counts : List ℕ
  pub question : List (List ℕ)
  pub asked : List ℕ
  pub answers : List Answer
  pub rest : List ℕ

pub record IsResponse (r : Response) : Type 0 where
  pub txid_fits : r.txid < 2 ^ 16
  pub flags_fit : r.flags < 2 ^ 16
  pub responds : bit_and r.flags 0x8000 ≢ 0
  pub length_counts : length r.counts ≡ 4
  pub labels : All IsLabel r.question
  pub length_asked : length r.asked ≡ 4
  pub answers_fit : All IsAnswer r.answers
  pub count_fits : length r.answers < 2 ^ 16

unfoldable pub response_bytes : Response → List ℕ
response_bytes r =
    be16 r.txid
    ++ (be16 r.flags
        ++ (be16 r.qdcount
            ++ (be16 (length r.answers)
                ++ (r.counts
                    ++ (encode_labels r.question
                        ++ (r.asked ++ (encode_answers r.answers ++ r.rest)))))))

-- The address of the first answer that is an A record of four bytes.
unfoldable pub first_ip : List Answer → Option ℕ
first_ip [] = none
first_ip (a ∷ as') = elim (a.content) [ a_record ip ↦ some ip | other type bytes ↦ first_ip as' ]

abbrev as_scan : Option ℕ → Scan
as_scan none = no_address
as_scan (some ip) = address ip

or_address-as_scan :
    (content : Data) (o : Option ℕ)
    → or_address content (as_scan o)
      ≡ as_scan (elim content [ a_record ip ↦ some ip | other type bytes ↦ o ])
or_address-as_scan (a_record ip) o = refl
or_address-as_scan (other type bytes) o = refl

first_address-first_ip : (as' : List Answer) → first_address as' ≡ as_scan (first_ip as')
unfolding first_address first_ip
first_address-first_ip [] = refl
first_address-first_ip (a ∷ as') =
    ap (or_address a.content) (first_address-first_ip as')
    ∙ or_address-as_scan a.content (first_ip as')

-- The settings after the answer to a name.
abbrev pub resolved : Option ℕ → Net → Net
resolved none n = record n { dns_done = not_found }
resolved (some ip) n = record n { dns_result = ip; dns_done = found }

finish-as_scan :
    (o : Option ℕ) (s : Sys) → finish (as_scan o) s ≡ done tt (record s { net = resolved o s.net })
unfolding finish
finish-as_scan none s = refl
finish-as_scan (some ip) s = refl

scan-response_bytes :
    (r : Response)
    → IsResponse r
    → scan (length r.answers) (response_bytes r) (length (response_bytes r))
      ≡ as_scan (first_ip r.answers)
unfolding scan
scan-response_bytes r ok =
    let whole = response_bytes r in
    let start =
      be16 r.txid ++ (be16 r.flags ++ (be16 r.qdcount ++ (be16 (length r.answers) ++ r.counts))) in
    let behind = r.asked ++ (encode_answers r.answers ++ r.rest) in
    let split : whole ≡ start ++ (encode_labels r.question ++ behind) =
      unfold response_bytes in simp append_assoc in
    let front = start ++ (encode_labels r.question ++ r.asked) in
    let split' : whole ≡ front ++ (encode_answers r.answers ++ r.rest) =
      split ∙ simp append_assoc in
    let twelve : length start ≡ 12 = omega (arith, ok.length_counts) in
    let place : 12 + length (encode_labels r.question) + 4 ≡ length front = omega (
      arith,
      twelve,
      ok.length_asked,
      length-append start (encode_labels r.question ++ r.asked),
      length-append (encode_labels r.question) r.asked,
    ) in
    rw
      (
        skip_qname-encode_labels (length whole + 1) r.question start behind whole 12 ok.labels split
            (sym twelve) (omega arith),
        scan,
      )
      (scan_answers-encode_answers r.answers front r.rest whole
          (12 + length (encode_labels r.question) + 4) ok.answers_fit split' place
        ∙ first_address-first_ip r.answers)

load_fields :
    (r : Response)
    → (load16 (response_bytes r) 0 ≡ some (swapped16 r.txid))
      × (load16 (response_bytes r) 2 ≡ some (swapped16 r.flags))
      × (load16 (response_bytes r) 6 ≡ some (swapped16 (length r.answers)))
unfolding response_bytes
load_fields r = (
  load16_field _ [] _ 0 r.txid refl refl,
  load16_field _ (be16 r.txid) _ 2 r.flags refl refl,
  load16_field _ (be16 r.txid ++ (be16 r.flags ++ be16 r.qdcount)) _ 6 (length r.answers) refl refl,
)

first_ip-nil : (as' : List Answer) → length as' ≡ 0 → first_ip as' ≡ none
unfolding first_ip
first_ip-nil [] h = refl
first_ip-nil (a ∷ as') h = absurd (omega (arith, h))

length-response_bytes : (r : Response) → IsResponse r → 12 ≤ length (response_bytes r)
unfolding response_bytes
length-response_bytes r ok =
    let behind = encode_labels r.question ++ (r.asked ++ (encode_answers r.answers ++ r.rest)) in
    omega (arith, ok.length_counts, length-append r.counts behind)

-- The checks pass.
dns_rx_checked :
    (r : Response) (s : Sys)
    → IsResponse r
    → r.txid ≡ s.net.dns_txid
    → dns_rx (response_bytes r) (length (response_bytes r)) s
      ≡ (if length r.answers == 0
            then modify (λ n. record n { dns_done = not_found })
            else finish (scan (length r.answers) (response_bytes r) (length (response_bytes r))))
          s
unfolding dns_rx
dns_rx_checked r s ok ours =
    let (at_txid, at_flags, at_count) = load_fields r in
    let same : (r.txid == s.net.dns_txid) ≡ true = (==_iff r.txid s.net.dns_txid).1 ours in
    rw
      (
        le→not-ltb (length (response_bytes r)) 12 (length-response_bytes r ok),
        dns_rx,
        at_txid,
        at_flags,
        at_count,
        ntohs-swapped16 r.txid ok.txid_fits,
        ntohs-swapped16 r.flags ok.flags_fit,
        ntohs-swapped16 (length r.answers) ok.count_fits,
        same,
        ne→not-eq (bit_and r.flags 0x8000) 0 ok.responds,
      )
      refl

-- On the bytes of a well-formed response with the machine's transaction dns_rx returns, and
-- changes nothing but the outcome of the query: it is the address of the first A record of four
-- bytes, whatever records stand before it, or the note that there is none. Names of answers are
-- labels with a null label at the end, or a pointer, and the name of the question has no pointer.
pub dns_rx-response_bytes :
    (r : Response) (s : Sys)
    → IsResponse r
    → r.txid ≡ s.net.dns_txid
    → dns_rx (response_bytes r) (length (response_bytes r)) s
      ≡ done tt (record s { net = resolved (first_ip r.answers) s.net })
dns_rx-response_bytes r s ok ours =
    dns_rx_checked r s ok ours ∙ (elim (Bool-cases (length r.answers == 0)) [
      | inl none' ↦ rw (none', first_ip-nil r.answers ((==_iff (length r.answers) 0).0 none')) refl
      | inr some' ↦ rw (some', scan-response_bytes r ok) (finish-as_scan (first_ip r.answers) s)
    ])
