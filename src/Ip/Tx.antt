-- ===== src/Ip/Tx.antt =====
-- ip_tx of ip.c. The frame buffer has 14 + 20 + 1500 bytes.
pub mod Laws
use netd_moduos.Common.{
  ℕ, ◌+◌, ◌%◌, ◌^◌, bit_and, Bool, ◌&&◌, ◌||◌, not, List, ◌++◌, Option, none, some, ℤ, ltb, ◌==◌,
  if◌then◌else◌, set, length, replicate, take, drop,
}
use netd_moduos.Wire.Constants.{ethertype_ip, ip_bcast}
use netd_moduos.Wire.Endian.{htons, htonl}
use netd_moduos.Wire.Memory.{store, store16, store32}
use netd_moduos.Wire.Cksum.{inet_cksum}
use netd_moduos.State.{
  Mac, mac_bytes, bcast_mac, Net, Sys, done, M, pure, crash, gets, ◌>>=◌, ◌>>◌, and_then,
}
use netd_moduos.Driver.{driver_tx}
use netd_moduos.Arp.{arp_lookup, arp_request}

-- The gateway for a destination outside the subnet, if there is a gateway.
unfoldable pub next_hop : Net → ℕ → ℕ
next_hop n dst =
    if not (n.gateway == 0) && not (bit_and dst n.netmask == bit_and n.ip n.netmask)
    then n.gateway
    else dst

-- Broadcast, the cached address, or broadcast after an ARP request.
unfoldable pub resolve : ℕ → ℕ → M Mac
resolve nexthop dst =
    if (nexthop == ip_bcast) || (dst == ip_bcast)
    then pure bcast_mac
    else (arp_lookup nexthop >>= λ found. elim found [
      | some mac ↦ pure mac
      | none ↦ arp_request nexthop >> pure bcast_mac
    ])

-- The 20 bytes of the header before the checksum is stored.
unfoldable pub header_fields : ℕ → ℕ → ℕ → ℕ → ℕ → List ℕ
header_fields total id proto src dst =
    let start : List ℕ = store16 (set (set (replicate 20 0) 0 0x45) 1 0) 2 (htons total) in
    let middle : List ℕ = set (set (store16 (store16 start 4 (htons id)) 6 0) 8 64) 9 proto in
    store32 (store32 middle 12 (htonl src)) 16 (htonl dst)

unfoldable pub ip_header : ℕ → ℕ → ℕ → ℕ → ℕ → List ℕ
ip_header total id proto src dst =
    let fields = header_fields total id proto src dst in
    store16 fields 10 (htons (inet_cksum fields))

unfoldable pub ethernet_header : Mac → Mac → ℕ → List ℕ
ethernet_header dst own ethertype =
    store16 (store (store (replicate 14 0) 0 (mac_bytes dst)) 6 (mac_bytes own)) 12
      (htons ethertype)

-- `g_ip_id++`, a `uint16_t`.
unfoldable pub next_ip_id : M ℕ
next_ip_id s = done s.ip_id (record s { ip_id = (s.ip_id + 1) % 2 ^ 16 })

-- The part of ip_tx behind the address resolution.
unfoldable pub ip_send : Mac → ℕ → ℕ → List ℕ → M ℤ
ip_send dst_mac dst proto payload = do
  own ← gets (λ n. n.mac)
  src ← gets (λ n. n.ip)
  id ← next_ip_id
  let header = ip_header ((20 + length payload) % 2 ^ 16) id proto src dst
  if ltb 1500 (length payload)
      then crash
      else driver_tx ((ethernet_header dst_mac own ethertype_ip ++ header) ++ payload)

-- ip_tx; the payload is `payload[0 .. plen)`, and `plen` a `uint16_t`.
unfoldable pub ip_tx : ℕ → ℕ → List ℕ → M ℤ
ip_tx dst proto payload = do
  nexthop ← gets (λ n. next_hop n dst)
  dst_mac ← resolve nexthop dst
  ip_send dst_mac dst proto payload
