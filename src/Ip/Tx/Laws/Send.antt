-- ===== src/Ip/Tx/Laws/Send.antt =====
-- The frames that ip_tx hands to the device.
use netd_moduos.Common.{
  ℕ, ◌+◌, ◌%◌, ◌^◌, ◌≤◌, ◌<◌, ◌≡◌, ◌≢◌, refl, true, List, ◌++◌, none, some, ℤ, ltb, ◌==◌, ne→not-eq,
  le→not-ltb, arith, length, length-append, Bool-cases, inl, inr,
}
use netd_moduos.Wire.Constants.{ethertype_ip, ip_bcast}
use netd_moduos.State.{Mac, bcast_mac, ArpEntry, Sys, done, fault}
use netd_moduos.Driver.Reply.{IsPrompt}
use netd_moduos.Driver.Transmit.{transmitted, driver_tx-transmits, driver_tx-overruns}
use netd_moduos.Arp.{is_fresh, arp_frame, arp_request}
use netd_moduos.Arp.Entries.{find_entry}
use netd_moduos.Arp.Lookup.{ticked, now_of, arp_lookup_fresh, arp_lookup_unknown}
use netd_moduos.Arp.Handshake.{arp_send-transmits}
use netd_moduos.Ip.Tx.{next_hop, resolve, ip_header, ethernet_header, next_ip_id, ip_send, ip_tx}
use netd_moduos.Ip.Tx.Laws.Header.{ip_header_lem}

-- The Ethernet frame for a payload, in the state that ip_tx sends it in.
abbrev pub ip_frame : Mac → ℕ → ℕ → List ℕ → Sys → List ℕ
ip_frame mac dst proto payload s =
    (ethernet_header mac s.net.mac ethertype_ip
      ++ ip_header ((20 + length payload) % 2 ^ 16) s.ip_id proto s.net.ip dst)
    ++ payload

abbrev pub with_next_id : Sys → Sys
with_next_id s = record s { ip_id = (s.ip_id + 1) % 2 ^ 16 }

length-ethernet_header : (dst own : Mac) (t : ℕ) → length (ethernet_header dst own t) ≡ 14
unfolding ethernet_header
length-ethernet_header dst own t = refl

length-ip_header : (total id proto src dst : ℕ) → length (ip_header total id proto src dst) ≡ 20
length-ip_header total id proto src dst = rw (ip_header_lem total id proto src dst) refl

pub length-headers :
    (mac : Mac) (dst proto n : ℕ) (s : Sys)
    → length (
        ethernet_header mac s.net.mac ethertype_ip
        ++ ip_header ((20 + n) % 2 ^ 16) s.ip_id proto s.net.ip dst)
      ≡ 34
length-headers mac dst proto n s =
    let e = ethernet_header mac s.net.mac ethertype_ip in
    let h = ip_header ((20 + n) % 2 ^ 16) s.ip_id proto s.net.ip dst in
    omega (
      arith,
      length-append e h,
      length-ethernet_header mac s.net.mac ethertype_ip,
      length-ip_header ((20 + n) % 2 ^ 16) s.ip_id proto s.net.ip dst,
    )

pub length-ip_frame :
    (mac : Mac) (dst proto : ℕ) (payload : List ℕ) (s : Sys)
    → length (ip_frame mac dst proto payload s) ≡ 34 + length payload
length-ip_frame mac dst proto payload s =
    let front =
      ethernet_header mac s.net.mac ethertype_ip
      ++ ip_header ((20 + length payload) % 2 ^ 16) s.ip_id proto s.net.ip dst in
    omega (arith, length-append front payload, length-headers mac dst proto (length payload) s)

pub ip_send-transmits :
    (lag : ℕ) (mac : Mac) (dst proto : ℕ) (payload : List ℕ) (s : Sys)
    → IsPrompt lag s.os.oracle
    → length payload ≤ 1466
    → (status : ℤ) × (n : ℕ) × (ip_send mac dst proto payload s
        ≡ done status (transmitted (ip_frame mac dst proto payload s) n (with_next_id s)))
unfolding ip_send next_ip_id
ip_send-transmits lag mac dst proto payload s prompt small =
    let (status, n, e) =
      driver_tx-transmits lag (ip_frame mac dst proto payload s) (with_next_id s) prompt
        (omega (arith, length-ip_frame mac dst proto payload s)) in
    (status, n, rw (le→not-ltb 1500 (length payload) (omega arith), ip_send, e) refl)

-- A payload of more than 1466 bytes overruns a buffer.
pub ip_send-overruns :
    (mac : Mac) (dst proto : ℕ) (payload : List ℕ) (s : Sys)
    → 1466 < length payload
    → ip_send mac dst proto payload s ≡ fault
unfolding ip_send next_ip_id
ip_send-overruns mac dst proto payload s big = elim (Bool-cases (ltb 1500 (length payload))) [
  | inl huge ↦ rw (huge, ip_send) refl
  | inr fits ↦
      rw
        (
          fits,
          ip_send,
          driver_tx-overruns (ip_frame mac dst proto payload s) (with_next_id s)
              (omega (arith, length-ip_frame mac dst proto payload s)),
        )
        refl
]

-- A packet to the broadcast address goes out as one broadcast frame, with no use of the table.
pub ip_tx-broadcast :
    (lag proto : ℕ) (payload : List ℕ) (s : Sys)
    → IsPrompt lag s.os.oracle
    → length payload ≤ 1466
    → (status : ℤ) × (n : ℕ) × (ip_tx ip_bcast proto payload s
        ≡ done status
            (transmitted (ip_frame bcast_mac ip_bcast proto payload s) n (with_next_id s)))
unfolding ip_tx resolve
ip_tx-broadcast lag proto payload s prompt small =
    let (status, n, e) = ip_send-transmits lag bcast_mac ip_bcast proto payload s prompt small in
    elim (Bool-cases (next_hop s.net ip_bcast == ip_bcast)) [
      | inl same ↦ (status, n, rw (same, resolve, ip_tx, e) refl)
      | inr other ↦ (status, n, rw (other, resolve, ip_tx, e) refl)
    ]

-- On a device that answers, a payload of at most 1466 bytes, to a destination and a next hop that
-- are not the broadcast address, whose next hop has a fresh entry, goes out as one frame to that
-- entry's hardware address; the identification counter goes up, and the clock is read once.
pub ip_tx-known :
    (lag dst proto : ℕ) (payload : List ℕ) (e : ArpEntry) (s : Sys)
    → IsPrompt lag s.os.oracle
    → length payload ≤ 1466
    → dst ≢ ip_bcast
    → next_hop s.net dst ≢ ip_bcast
    → find_entry (next_hop s.net dst) s.net.arp_cache ≡ some e
    → is_fresh (now_of s) e ≡ true
    → (status : ℤ) × (n : ℕ) × (ip_tx dst proto payload s
        ≡ done status
            (transmitted (ip_frame e.mac dst proto payload s) n (with_next_id (ticked s))))
unfolding ip_tx resolve
ip_tx-known lag dst proto payload e s prompt small d h here fresh =
    let (status, n, sent) = ip_send-transmits lag e.mac dst proto payload (ticked s) prompt small in
    (
      status,
      n,
      rw
          (
            ne→not-eq (next_hop s.net dst) ip_bcast h,
            ip_tx,
            resolve,
            ne→not-eq dst ip_bcast d,
            arp_lookup_fresh (next_hop s.net dst) e s here fresh,
            sent,
          )
          refl,
    )

-- On a device that answers, a payload of at most 1466 bytes, to a destination and a next hop that
-- are not the broadcast address, whose next hop has no entry, goes out as a broadcast frame, right
-- after an ARP request for that hop.
pub ip_tx-unknown :
    (lag dst proto : ℕ) (payload : List ℕ) (s : Sys)
    → IsPrompt lag s.os.oracle
    → length payload ≤ 1466
    → dst ≢ ip_bcast
    → next_hop s.net dst ≢ ip_bcast
    → find_entry (next_hop s.net dst) s.net.arp_cache ≡ none
    → let request = arp_frame s.net.mac 1 bcast_mac s.net.ip (next_hop s.net dst) in
      (status : ℤ) × (n n' : ℕ) × (ip_tx dst proto payload s
        ≡ done status (
            transmitted
              (ip_frame bcast_mac dst proto payload s)
              n'
              (with_next_id (transmitted request n s))))
unfolding ip_tx resolve arp_request
ip_tx-unknown lag dst proto payload s prompt small d h none' =
    let hop = next_hop s.net dst in
    let (n, asked) = arp_send-transmits lag 1 bcast_mac s.net.ip hop s prompt in
    let request = arp_frame s.net.mac 1 bcast_mac s.net.ip hop in
    let (status, n', sent) =
      ip_send-transmits lag bcast_mac dst proto payload (transmitted request n s) prompt small in
    (
      status,
      n,
      n',
      rw
          (
            ne→not-eq hop ip_bcast h,
            ip_tx,
            resolve,
            ne→not-eq dst ip_bcast d,
            arp_lookup_unknown hop s none',
            asked,
            sent,
          )
          refl,
    )
