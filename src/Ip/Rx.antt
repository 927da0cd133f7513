-- ===== src/Ip/Rx.antt =====
-- ip_rx of ip.c.
pub mod Delivery
pub mod Servers
pub mod Truncated
use netd_moduos.Common.{
  ℕ, ◌+◌, ◌-◌, ◌*◌, bit_and, Bool, ◌&&◌, not, List, Option, ltb, leb, ◌==◌, if◌then◌else◌, length,
  drop, get_elem?,
}
use netd_moduos.Wire.Constants.{ip_bcast, ipproto_icmp, ipproto_udp}
use netd_moduos.Wire.Endian.{ntohs, ntohl}
use netd_moduos.Wire.Memory.{load16, load32}
use netd_moduos.State.{Net, M, pure, skip, need, gets, ◌>>=◌, ◌>>◌, and_then}
use netd_moduos.Arp.{arp_learn, load_mac}
use netd_moduos.Icmp.{icmp_rx}
use netd_moduos.Udp.Rx.{udp_rx}

-- `switch (proto)`.
unfoldable pub dispatch : ℕ → ℕ → List ℕ → ℕ → M (Unit {0})
dispatch proto src_ip payload len =
    if proto == ipproto_icmp
    then icmp_rx src_ip payload len
    else if proto == ipproto_udp
    then udp_rx src_ip payload len
    else skip

-- Not for this machine, and not a broadcast.
unfoldable pub not_for_us : ℕ → ℕ → Bool
not_for_us own dst_ip = not (own == 0) && (not (dst_ip == own) && not (dst_ip == ip_bcast))

-- ip_rx, on the bytes of a frame. `ip` of the source is `frame + 14`.
unfoldable pub ip_rx : List ℕ → M (Unit {0})
ip_rx frame = if ltb (length frame) 34 then skip else (do
  version ← need (get_elem? frame 14)
  proto ← need (get_elem? frame 23)
  src_ip ← need (load32 frame 26)
  dst_ip ← need (load32 frame 30)
  tot_len ← need (load16 frame 16)
  own ← gets (λ n. n.ip)
  let ihl = bit_and version 0x0f * 4
  if not_for_us own (ntohl dst_ip) then skip else if leb (ntohs tot_len) ihl then skip else (do
    src_mac ← need (load_mac frame 6)
    arp_learn (ntohl src_ip) src_mac
    dispatch proto (ntohl src_ip) (drop (14 + ihl) frame) (ntohs tot_len - ihl)))
