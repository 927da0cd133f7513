-- ===== src/Ip/Tx/Laws/Total.antt =====
-- ip_tx on every packet: it returns if the packet fits, and faults if it does not.
use netd_moduos.Common.{
  ℕ, ◌≤◌, ◌<◌, ◌≡◌, refl, ◌||◌, List, ℤ, ◌==◌, length, Bool-cases, Option-cases, inl, inr,
}
use netd_moduos.Wire.Constants.{ip_bcast}
use netd_moduos.State.{Mac, bcast_mac, ArpEntry, Sys, done, fault}
use netd_moduos.Driver.Reply.{IsPrompt}
use netd_moduos.Driver.Transmit.{transmitted}
use netd_moduos.Arp.{arp_request, arp_frame}
use netd_moduos.Arp.Lookup.{looked, arp_lookup-done}
use netd_moduos.Arp.Handshake.{arp_send-transmits}
use netd_moduos.Ip.Tx.{next_hop, resolve, ip_tx}
use netd_moduos.Ip.Tx.Laws.Send.{ip_frame, with_next_id, ip_send-transmits, ip_send-overruns}

-- What sending can change: the table, the identification counter, and the traffic with the kernel.
pub record Traffic : Type 0 where
  pub cache : List ArpEntry
  pub id : ℕ
  pub clock_calls : ℕ
  pub read_calls : ℕ
  pub write_calls : ℕ
  pub written : List (List ℕ)

abbrev pub after : Traffic → Sys → Sys
after t s = record s {
  net = record (s.net) { arp_cache = t.cache };
  ip_id = t.id;
  os = record (s.os) {
    clock_calls = t.clock_calls;
    read_calls = t.read_calls;
    write_calls = t.write_calls;
    written = t.written;
  };
}

-- The traffic that leads from some state with the same settings to `s`.
abbrev pub traffic_of : Sys → Traffic
traffic_of s = record {
  cache = s.net.arp_cache;
  id = s.ip_id;
  clock_calls = s.os.clock_calls;
  read_calls = s.os.read_calls;
  write_calls = s.os.write_calls;
  written = s.os.written;
}

resolve-done :
    (lag hop dst : ℕ) (s : Sys)
    → IsPrompt lag s.os.oracle
    → (mac : Mac) × (t : Traffic) × (resolve hop dst s ≡ done mac (after t s))
unfolding resolve arp_request
resolve-done lag hop dst s prompt = elim (Bool-cases ((hop == ip_bcast) || (dst == ip_bcast))) [
  | inl all ↦ (bcast_mac, traffic_of s, rw (all, resolve) refl)
  | inr one' ↦
      let (r, cache, k, e) = arp_lookup-done hop s in
      elim (Option-cases r) [
        | inr (mac, hit) ↦ (mac, traffic_of (looked cache k s), rw (one', resolve, e, hit) refl)
        | inl miss ↦
            let s' = looked cache k s in
            let (n, asked) = arp_send-transmits lag 1 bcast_mac s.net.ip hop s' prompt in
            (
              bcast_mac,
              traffic_of (transmitted (arp_frame s.net.mac 1 bcast_mac s.net.ip hop) n s'),
              rw (one', resolve, e, miss, asked) refl,
            )
      ]
]

-- On a device that answers, ip_tx returns for every payload of at most 1466 bytes; of the daemon's
-- settings only the neighbour table can change.
pub ip_tx-returns :
    (lag dst proto : ℕ) (payload : List ℕ) (s : Sys)
    → IsPrompt lag s.os.oracle
    → length payload ≤ 1466
    → (status : ℤ) × (t : Traffic) × (ip_tx dst proto payload s ≡ done status (after t s))
unfolding ip_tx
ip_tx-returns lag dst proto payload s prompt small =
    let (mac, t, e) = resolve-done lag (next_hop s.net dst) dst s prompt in
    let (status, n, sent) = ip_send-transmits lag mac dst proto payload (after t s) prompt small in
    (
      status,
      traffic_of
          (transmitted (ip_frame mac dst proto payload (after t s)) n (with_next_id (after t s))),
      rw (e, sent) refl,
    )

-- A payload of more than 1466 bytes, although the interface takes 1500, overruns a buffer on every
-- path.
pub ip_tx-overruns :
    (lag dst proto : ℕ) (payload : List ℕ) (s : Sys)
    → IsPrompt lag s.os.oracle
    → 1466 < length payload
    → ip_tx dst proto payload s ≡ fault
unfolding ip_tx
ip_tx-overruns lag dst proto payload s prompt big =
    let (mac, t, e) = resolve-done lag (next_hop s.net dst) dst s prompt in
    rw (e, ip_send-overruns mac dst proto payload (after t s) big) refl
