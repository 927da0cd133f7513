-- ===== src/Arp/Handshake.antt =====
-- arp_rx on every frame, and the exchange of a request and its reply between two machines.
use netd_moduos.Common.{
  ℕ, ◌+◌, ◌^◌, ◌≤◌, ◌<◌, ◌≡◌, ◌≢◌, refl, sym, subst, ◌∙◌, true, false, List, some, ltb, ◌==◌,
  ne→not-eq, not-ltb→le, if◌then◌else◌, arith, length, get_or, get_elem?-eq-get_or, Bool-cases, inl,
  inr,
}
use netd_moduos.Wire.Endian.{ntohs, ntohl}
use netd_moduos.Wire.Loads.{
  word16, word32, load16_inside, load32_inside, ntohs_stored, ntohl_stored,
}
use netd_moduos.State.{Mac, bcast_mac, Sys, done}
use netd_moduos.Driver.Reply.{IsPrompt}
use netd_moduos.Driver.Transmit.{transmitted, driver_tx-transmits}
use netd_moduos.Arp.Cache.{arp_learn, learn}
use netd_moduos.Arp.Packet.{arp_frame, arp_send, arp_rx, arp_hear, arp_answer, load_mac, asks_for}
use netd_moduos.Arp.Entries.{find_entry}
use netd_moduos.Arp.Learn.{learned, find_entry-learn}
use netd_moduos.Arp.Lookup.{ticked, now_of, with_cache}

length-arp_frame : (own dst : Mac) (op a b : ℕ) → length (arp_frame own op dst a b) ≡ 42
unfolding arp_frame
length-arp_frame own dst op a b = refl

-- On a device that answers, arp_send hands the frame over and changes nothing else.
pub arp_send-transmits :
    (lag op : ℕ) (dst : Mac) (a b : ℕ) (s : Sys)
    → IsPrompt lag s.os.oracle
    → (n : ℕ) × (arp_send op dst a b s ≡ done tt (transmitted (arp_frame s.net.mac op dst a b) n s))
unfolding arp_send
arp_send-transmits lag op dst a b s prompt =
    let (status, n, e) =
      driver_tx-transmits lag (arp_frame s.net.mac op dst a b) s prompt
        (omega (arith, length-arp_frame s.net.mac dst op a b)) in
    (n, rw e refl)

abbrev pub mac_at : List ℕ → ℕ → Mac
mac_at buf i = record {
  m0 = get_or buf i 0;
  m1 = get_or buf (i + 1) 0;
  m2 = get_or buf (i + 2) 0;
  m3 = get_or buf (i + 3) 0;
  m4 = get_or buf (i + 4) 0;
  m5 = get_or buf (i + 5) 0;
}

pub load_mac_inside :
    (buf : List ℕ) (i : ℕ) → i + 5 < length buf → load_mac buf i ≡ some (mac_at buf i)
unfolding load_mac
load_mac_inside buf i h = ground (
  arith,
  get_elem?-eq-get_or buf i 0,
  get_elem?-eq-get_or buf (i + 1) 0,
  get_elem?-eq-get_or buf (i + 2) 0,
  get_elem?-eq-get_or buf (i + 3) 0,
  get_elem?-eq-get_or buf (i + 4) 0,
  get_elem?-eq-get_or buf (i + 5) 0,
)

-- The state after the sender of a packet was learned, if it gives an address.
abbrev pub heard : ℕ → Mac → Sys → Sys
heard src mac s =
    if src == 0 then s else ticked (with_cache (learn src mac (now_of s) s.net.arp_cache) s)

arp_hear-done : (src : ℕ) (mac : Mac) (s : Sys) → arp_hear src mac s ≡ done tt (heard src mac s)
unfolding arp_hear arp_learn
arp_hear-done src mac s = ground arith

heard-oracle : (src : ℕ) (mac : Mac) (s : Sys) → (heard src mac s).os.oracle ≡ s.os.oracle
heard-oracle src mac s = ground arith

heard-net :
    (src : ℕ) (mac : Mac) (s : Sys)
    → ((heard src mac s).net.ip ≡ s.net.ip) × ((heard src mac s).net.mac ≡ s.net.mac)
heard-net src mac s = ground arith

-- The last part of arp_rx, in a state that may have learned the sender.
abbrev pub replied : ℕ → ℕ → ℕ → ℕ → Mac → Sys → Sys
replied n op src dst mac s =
    if asks_for s.net.ip op dst then transmitted (arp_frame s.net.mac 2 mac s.net.ip src) n s else s

arp_answer-done :
    (lag op src dst : ℕ) (mac : Mac) (s : Sys)
    → IsPrompt lag s.os.oracle
    → (n : ℕ) × (arp_answer op src dst mac s ≡ done tt (replied n op src dst mac s))
unfolding arp_answer
arp_answer-done lag op src dst mac s prompt = elim (Bool-cases (asks_for s.net.ip op dst)) [
  | inr other ↦ (0, rw (other, arp_answer) refl)
  | inl asked ↦
      let (n, e) = arp_send-transmits lag 2 mac s.net.ip src s prompt in
      (n, rw (asked, arp_answer, e) refl)
]

-- On a device that answers, arp_rx returns on every frame, whatever its bytes are. A frame shorter
-- than 42 bytes changes nothing. Of any other the sender is learned unless its address is 0, and
-- if the packet asks for this machine's address the reply to the sender is handed to the device,
-- once; nothing else changes but the device's counters.
pub arp_rx-returns :
    (lag : ℕ) (frame : List ℕ) (s : Sys)
    → IsPrompt lag s.os.oracle
    → (n : ℕ) × (arp_rx frame s
        ≡ done tt (
            if ltb (length frame) 42
            then s
            else replied n
                (ntohs (word16 frame 20))
                (ntohl (word32 frame 28))
                (ntohl (word32 frame 38))
                (mac_at frame 22)
                (heard (ntohl (word32 frame 28)) (mac_at frame 22) s)))
unfolding arp_rx
arp_rx-returns lag frame s prompt = elim (Bool-cases (ltb (length frame) 42)) [
  | inl short ↦ (0, rw (short, arp_rx) refl)
  | inr long ↦
      let big : 42 ≤ length frame = not-ltb→le (length frame) 42 long in
      let src = ntohl (word32 frame 28) in
      let mac = mac_at frame 22 in
      let (n, e) =
        arp_answer-done lag (ntohs (word16 frame 20)) src (ntohl (word32 frame 38)) mac
          (heard src mac s) (subst (IsPrompt lag) (sym (heard-oracle src mac s)) prompt) in
      (
        n,
        rw
            (
              long,
              arp_rx,
              load16_inside frame 20 (omega arith),
              load32_inside frame 28 (omega arith),
              load32_inside frame 38 (omega arith),
              load_mac_inside frame 22 (omega arith),
              arp_hear-done src mac s,
              e,
            )
            refl,
      )
]

-- The fields of a frame of arp_send, as arp_rx reads them.
arp_frame_fields :
    (own dst : Mac) (op a b : ℕ)
    → op < 2 ^ 16
    → a < 2 ^ 32
    → b < 2 ^ 32
    → let f = arp_frame own op dst a b in
      (ntohs (word16 f 20) ≡ op)
      × (ntohl (word32 f 28) ≡ a)
      × (ntohl (word32 f 38) ≡ b)
      × (mac_at f 22 ≡ own)
unfolding arp_frame
arp_frame_fields own dst op a b ho ha hb =
    (ntohs_stored op ho, ntohl_stored a ha, ntohl_stored b hb, refl)

-- arp_rx on such a frame, by its fields.
arp_rx-arp_frame :
    (lag : ℕ) (own dst : Mac) (op a b : ℕ) (s : Sys)
    → IsPrompt lag s.os.oracle
    → op < 2 ^ 16
    → a < 2 ^ 32
    → b < 2 ^ 32
    → (n : ℕ) × (arp_rx (arp_frame own op dst a b) s
        ≡ done tt (replied n op a b own (heard a own s)))
arp_rx-arp_frame lag own dst op a b s prompt ho ha hb =
    let f = arp_frame own op dst a b in
    let (n, e) = arp_rx-returns lag f s prompt in
    let (fop, fa, fb, fmac) = arp_frame_fields own dst op a b ho ha hb in
    let long : ltb (length f) 42 ≡ false = rw (length-arp_frame own dst op a b) refl in
    (n, e ∙ rw (long, fop, fa, fb, fmac) refl)

heard_new :
    (src : ℕ) (mac : Mac) (s : Sys)
    → src ≢ 0
    → heard src mac s ≡ ticked (with_cache (learn src mac (now_of s) s.net.arp_cache) s)
heard_new src mac s h = rw (ne→not-eq src 0 h) refl

asks_for_us : (own : ℕ) → own ≢ 0 → asks_for own 1 own ≡ true
unfolding asks_for
asks_for_us own h = ground arith

asks_for_reply : (own dst : ℕ) → asks_for own 2 dst ≡ false
unfolding asks_for
asks_for_reply own dst = refl

-- Two machines on devices that answer resolve an address: `s`, which has the address `b`, not 0,
-- answers the request that a machine with the hardware address `m` and the address `a` broadcasts,
-- and the reply that it hands to its device makes that machine, in any state `t` with a table,
-- learn `b` and send nothing. Addresses are 32-bit numbers.
pub arp_exchange :
    (lag : ℕ) (m : Mac) (a : ℕ) (s t : Sys)
    → IsPrompt lag s.os.oracle
    → IsPrompt lag t.os.oracle
    → a < 2 ^ 32
    → s.net.ip < 2 ^ 32
    → s.net.ip ≢ 0
    → 0 < length t.net.arp_cache
    → let b = s.net.ip in
      let reply = arp_frame s.net.mac 2 m b a in
      let t' = heard b s.net.mac t in
      (n : ℕ) × (arp_rx (arp_frame m 1 bcast_mac a b) s
        ≡ done tt (transmitted reply n (heard a m s)))
      × (arp_rx reply t ≡ done tt t')
      × (find_entry b t'.net.arp_cache ≡ some (learned b s.net.mac (now_of t)))
arp_exchange lag m a s t prompt prompt' ha hb up room =
    let b = s.net.ip in
    let (n, e) = arp_rx-arp_frame lag m bcast_mac 1 a b s prompt (omega arith) ha hb in
    let (n', e') = arp_rx-arp_frame lag s.net.mac m 2 b a t prompt' (omega arith) hb ha in
    let (same_ip, same_mac) = heard-net a m s in
    (
      n,
      e ∙ rw (same_ip, same_mac, asks_for_us b up) refl,
      e' ∙ rw (asks_for_reply (heard b s.net.mac t).net.ip a) refl,
      rw (heard_new b s.net.mac t up)
          (find_entry-learn b (now_of t) s.net.mac t.net.arp_cache room),
    )
