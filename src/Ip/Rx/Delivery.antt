-- ===== src/Ip/Rx/Delivery.antt =====
-- From udp_tx on one machine to the buffer of a bound port on another.
use netd_moduos.Common.{
  ℕ, ◌+◌, ◌-◌, ◌%◌, ◌^◌, ◌≤◌, ◌<◌, ◌≡◌, ◌≢◌, refl, ap, ◌∙◌, false, List, ◌++◌, some, leb, ne→not-eq,
  le→not-ltb, arith, length, min, take,
}
use netd_moduos.Wire.Constants.{ethertype_ip, ipproto_udp, dhcp_port_client, dns_port}
use netd_moduos.Wire.Memory.{load16, load32}
use netd_moduos.Wire.Loads.{ntohs_stored, ntohl_stored}
use netd_moduos.State.{Mac, Sys, UdpBind, done}
use netd_moduos.Arp.{arp_learn, learn, load_mac}
use netd_moduos.Arp.Lookup.{ticked, now_of, with_cache}
use netd_moduos.Ip.Tx.{ip_tx, ip_header, header_fields, ethernet_header}
use netd_moduos.Ip.Tx.Laws.Send.{ip_frame}
use netd_moduos.Udp.Table.{deliver, recv}
use netd_moduos.Udp.Table.Laws.{servers, IsSized, recv-deliver}
use netd_moduos.Udp.Tx.{udp_header, datagram, udp_tx}
use netd_moduos.Udp.Tx.Laws.{udp_tx-ip_tx, length-datagram}
use netd_moduos.Udp.Rx.{udp_rx, route, deliver_to}
use netd_moduos.Ip.Rx.{ip_rx, dispatch, not_for_us}

abbrev pub with_binds : List UdpBind → Sys → Sys
with_binds bs s = record s { net = record (s.net) { udp_binds = bs } }

-- udp_rx on a datagram of udp_tx hands the data on by its ports.
pub udp_rx-route :
    (src_ip src_port dst_port : ℕ) (xs : List ℕ) (s : Sys)
    → src_port < 2 ^ 16
    → dst_port < 2 ^ 16
    → 0 < length xs
    → length xs ≤ 1472
    → udp_rx src_ip (datagram src_port dst_port xs) (8 + length xs) s
      ≡ route src_ip src_port dst_port xs (length xs) s
unfolding udp_rx datagram udp_header load16
udp_rx-route src_ip src_port dst_port xs s hs hd some' small =
    let n : ℕ = (8 + length xs) % 2 ^ 16 in
    let len : n ≡ 8 + length xs = omega arith in
    let over : leb (8 + length xs) 8 ≡ false = ground arith in
    let rest : 8 + length xs - 8 ≡ length xs = omega arith in
    rw
      (
        le→not-ltb (8 + length xs) 8 (omega arith),
        udp_rx,
        ntohs_stored src_port hs,
        ntohs_stored dst_port hd,
        ntohs_stored n (omega arith),
        len,
        over,
        rest,
      )
      refl

-- The same for a port that is neither the DHCP client's nor from a DNS server.
udp_rx-datagram :
    (src_ip src_port dst_port : ℕ) (xs : List ℕ) (bs : List UdpBind) (s : Sys)
    → src_port < 2 ^ 16
    → dst_port < 2 ^ 16
    → dst_port ≢ dhcp_port_client
    → src_port ≢ dns_port
    → 0 < length xs
    → length xs ≤ 1472
    → deliver dst_port src_ip src_port xs (length xs) s.net.udp_binds ≡ some bs
    → udp_rx src_ip (datagram src_port dst_port xs) (8 + length xs) s ≡ done tt (with_binds bs s)
unfolding route deliver_to
udp_rx-datagram src_ip src_port dst_port xs bs s hs hd not_dhcp not_dns some' small e =
    udp_rx-route src_ip src_port dst_port xs s hs hd some' small
    ∙ rw
        (
          route,
          ne→not-eq dst_port dhcp_port_client not_dhcp,
          ne→not-eq src_port dns_port not_dns,
          deliver_to,
          e,
        )
        refl

-- The headers of a packet with `n` bytes of payload, as ip_tx writes them.
abbrev pub headers : Mac → ℕ → ℕ → ℕ → Sys → List ℕ
headers mac dst proto n s =
    ethernet_header mac s.net.mac ethertype_ip
    ++ ip_header ((20 + n) % 2 ^ 16) s.ip_id proto s.net.ip dst

-- ip_rx on the headers of a packet for this machine, with the bytes that were received behind them.
pub ip_rx-headers :
    (mac : Mac) (dst proto n : ℕ) (received : List ℕ) (s t : Sys)
    → dst < 2 ^ 32
    → s.net.ip < 2 ^ 32
    → 0 < n
    → n ≤ 1500
    → not_for_us t.net.ip dst ≡ false
    → ip_rx (headers mac dst proto n s ++ received) t
      ≡ dispatch proto s.net.ip received n
          (ticked (with_cache (learn s.net.ip s.net.mac (now_of t) t.net.arp_cache) t))
unfolding ip_rx ethernet_header ip_header header_fields load16 load32 load_mac arp_learn
ip_rx-headers mac dst proto n received s t hd hs some' small ours =
    let total : ℕ = (20 + n) % 2 ^ 16 in
    let len : total ≡ 20 + n = omega arith in
    let over : leb (20 + n) 20 ≡ false = ground arith in
    let rest : 20 + n - 20 ≡ n = omega arith in
    rw
      (
        le→not-ltb (length (headers mac dst proto n s ++ received)) 34 (omega arith),
        ip_rx,
        ntohl_stored s.net.ip hs,
        ntohl_stored dst hd,
        ntohs_stored total (omega arith),
        ours,
        len,
        over,
        rest,
      )
      refl

-- ip_rx on a frame of ip_tx that carries UDP and is for this machine.
pub ip_rx-ip_frame :
    (mac : Mac) (dst : ℕ) (payload : List ℕ) (s t : Sys)
    → dst < 2 ^ 32
    → s.net.ip < 2 ^ 32
    → 0 < length payload
    → length payload ≤ 1500
    → not_for_us t.net.ip dst ≡ false
    → ip_rx (ip_frame mac dst ipproto_udp payload s) t
      ≡ udp_rx s.net.ip payload
          (length payload)
          (ticked (with_cache (learn s.net.ip s.net.mac (now_of t) t.net.arp_cache) t))
unfolding dispatch
ip_rx-ip_frame mac dst payload s t hd hs some' small ours =
    ip_rx-headers mac dst ipproto_udp (length payload) payload s t hd hs some' small ours

-- What `s` sends with udp_tx reaches the owner of the port on `t`: the frame in which ip_tx packs
-- the datagram makes `t`, if it does not drop the destination, learn the sender and keep the data
-- for the port, and udp_recv then hands out the data, as far as the caller's buffer goes, and the
-- sender's address and port. The data has 1 to 1458 bytes, the port is bound, the receive buffers
-- have their size, addresses and ports are 32-bit and 16-bit numbers, and neither port is one that
-- udp_rx gives to DHCP or DNS.
pub udp_end_to_end :
    (mac : Mac) (dst src_port dst_port max : ℕ) (xs : List ℕ) (s t : Sys)
    → dst < 2 ^ 32
    → s.net.ip < 2 ^ 32
    → src_port < 2 ^ 16
    → dst_port < 2 ^ 16
    → dst_port ≢ dhcp_port_client
    → src_port ≢ dns_port
    → 0 < length xs
    → length xs ≤ 1458
    → not_for_us t.net.ip dst ≡ false
    → IsSized t.net.udp_binds
    → 1 ≤ servers dst_port t.net.udp_binds
    → let payload = datagram src_port dst_port xs in
      let heard = ticked (with_cache (learn s.net.ip s.net.mac (now_of t) t.net.arp_cache) t) in
      (bs bs' : List UdpBind) × (udp_tx dst src_port dst_port xs s
        ≡ ip_tx dst ipproto_udp payload s)
      × (ip_rx (ip_frame mac dst ipproto_udp payload s) t ≡ done tt (with_binds bs heard))
      × (recv dst_port max bs ≡ (
        some (record {
          bytes = take (min max (length xs)) xs;
          src_ip = s.net.ip;
          src_port = src_port;
        }),
        bs',
      ))
udp_end_to_end mac dst src_port dst_port max xs s t hd hs hsp hdp a b some' small ours sized
      bound' =
    let payload = datagram src_port dst_port xs in
    let size = length-datagram src_port dst_port xs in
    let heard = ticked (with_cache (learn s.net.ip s.net.mac (now_of t) t.net.arp_cache) t) in
    let (bs, bs', kept, handed, sized') =
      recv-deliver dst_port s.net.ip src_port (length xs) xs (omega arith) max t.net.udp_binds sized
        bound' some' in
    let fits : min (length xs) 2048 ≡ length xs = omega arith in
    (
      bs,
      bs',
      udp_tx-ip_tx dst src_port dst_port xs s (omega arith),
      ip_rx-ip_frame mac dst payload s t hd hs (omega (arith, size)) (omega (arith, size)) ours
          ∙ ap (λ (n : ℕ). udp_rx s.net.ip payload n heard) size
          ∙ udp_rx-datagram s.net.ip src_port dst_port xs bs heard hsp hdp a b some' (omega arith)
              kept,
      rw fits at handed,
    )
