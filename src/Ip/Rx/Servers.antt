-- ===== src/Ip/Rx/Servers.antt =====
-- From udp_tx on a name server or a DHCP server to what the machine takes over.
use netd_moduos.Common.{
  ℕ, ◌^◌, ◌≤◌, ◌<◌, ◌≡◌, ◌≢◌, refl, ap, ◌∙◌, false, List, ne→not-eq, arith, length,
}
use netd_moduos.Wire.Constants.{ipproto_udp, dhcp_port_client, dhcp_port_server, dns_port}
use netd_moduos.State.{Mac, Sys, done}
use netd_moduos.Arp.{learn}
use netd_moduos.Arp.Lookup.{ticked, now_of, with_cache}
use netd_moduos.Ip.Tx.{ip_tx}
use netd_moduos.Ip.Tx.Laws.Send.{ip_frame}
use netd_moduos.Ip.Tx.Laws.Total.{Traffic, after}
use netd_moduos.Udp.Tx.{datagram, udp_tx}
use netd_moduos.Udp.Tx.Laws.{udp_tx-ip_tx, length-datagram}
use netd_moduos.Udp.Rx.{udp_rx, route}
use netd_moduos.Dns.Rx.{dns_rx}
use netd_moduos.Dns.Rx.Response.{
  Response, IsResponse, response_bytes, first_ip, resolved, dns_rx-response_bytes,
}
use netd_moduos.State.{discover, bound, ◌>>=◌}
use netd_moduos.Driver.Reply.{IsPrompt}
use netd_moduos.Dhcp.Options.{opt_subnet, opt_router, opt_dns}
use netd_moduos.Dhcp.Options.Encoding.{find_opt}
use netd_moduos.Dhcp.Options.Laws.{opt32_value}
use netd_moduos.Dhcp.Client.{dhcp_offer, dhcp_ack, accept_offer, accept_ack, dhcp_rx, or_default}
use netd_moduos.Dhcp.Client.React.{react, with_net}
use netd_moduos.Dhcp.Client.Message.{
  Message, IsMessage, message_bytes, length-message_bytes, lease_of, type_of, dhcp_rx-message_bytes,
  react_offer, react_ack,
}
use netd_moduos.Ip.Rx.{ip_rx, not_for_us}
use netd_moduos.Ip.Rx.Delivery.{udp_rx-route, ip_rx-ip_frame}

-- A machine that has learned the sender of a frame from it.
abbrev pub heard_from : Sys → Sys → Sys
heard_from s t = ticked (with_cache (learn s.net.ip s.net.mac (now_of t) t.net.arp_cache) t)

-- ip_rx on the frame of a datagram hands the data on by its ports.
ip_rx-route :
    (mac : Mac) (dst src_port dst_port : ℕ) (xs : List ℕ) (s t : Sys)
    → dst < 2 ^ 32
    → s.net.ip < 2 ^ 32
    → src_port < 2 ^ 16
    → dst_port < 2 ^ 16
    → 0 < length xs
    → length xs ≤ 1458
    → not_for_us t.net.ip dst ≡ false
    → ip_rx (ip_frame mac dst ipproto_udp (datagram src_port dst_port xs) s) t
      ≡ route s.net.ip src_port dst_port xs (length xs) (heard_from s t)
ip_rx-route mac dst src_port dst_port xs s t hd hs hsp hdp some' small ours =
    let payload = datagram src_port dst_port xs in
    let size = length-datagram src_port dst_port xs in
    ip_rx-ip_frame mac dst payload s t hd hs (omega (arith, size)) (omega (arith, size)) ours
    ∙ ap (λ (n : ℕ). udp_rx s.net.ip payload n (heard_from s t)) size
    ∙ udp_rx-route s.net.ip src_port dst_port xs (heard_from s t) hsp hdp some' (omega arith)

route-dns_rx :
    (src_ip dst_port : ℕ) (xs : List ℕ) (s : Sys)
    → dst_port ≢ dhcp_port_client
    → route src_ip dns_port dst_port xs (length xs) s ≡ dns_rx xs (length xs) s
unfolding route
route-dns_rx src_ip dst_port xs s other = rw (route, ne→not-eq dst_port dhcp_port_client other) refl

-- What a name server `s` sends from port 53 with udp_tx answers the query of `t`: the frame in
-- which ip_tx packs a well-formed response with the transaction of `t` makes `t`, if it does not
-- drop the destination, learn the sender and take over the outcome of the query, and nothing else:
-- the address of the first A record of four bytes, whatever records stand before it, or the note
-- that there is none. Names of answers are labels with a null label at the end, or a pointer, and
-- the name of the question has no pointer; the response has at most 1458 bytes, the addresses are
-- 32-bit numbers, and the port is a 16-bit number other than the DHCP client's.
pub dns_end_to_end :
    (mac : Mac) (dst dst_port : ℕ) (r : Response) (s t : Sys)
    → dst < 2 ^ 32
    → s.net.ip < 2 ^ 32
    → dst_port < 2 ^ 16
    → dst_port ≢ dhcp_port_client
    → IsResponse r
    → length (response_bytes r) ≤ 1458
    → r.txid ≡ t.net.dns_txid
    → not_for_us t.net.ip dst ≡ false
    → let payload = datagram dns_port dst_port (response_bytes r) in
      let heard = heard_from s t in
      (udp_tx dst dns_port dst_port (response_bytes r) s ≡ ip_tx dst ipproto_udp payload s)
      × (ip_rx (ip_frame mac dst ipproto_udp payload s) t
          ≡ done tt (record heard { net = resolved (first_ip r.answers) heard.net }))
unfolding response_bytes
dns_end_to_end mac dst dst_port r s t hd hs hdp other ok small ours for_us =
    let xs = response_bytes r in
    let some' : 0 < length xs = omega arith in
    (
      udp_tx-ip_tx dst dns_port dst_port xs s (omega (arith, small)),
      ip_rx-route mac dst dns_port dst_port xs s t hd hs (omega arith) hdp some' small for_us
          ∙ route-dns_rx s.net.ip dst_port xs (heard_from s t) other
          ∙ dns_rx-response_bytes r (heard_from s t) ok ours,
    )

-- The frame in which a server sends a DHCP message to a client.
abbrev pub server_frame : Mac → ℕ → Message → Sys → List ℕ
server_frame mac dst m s =
    ip_frame mac dst ipproto_udp (datagram dhcp_port_server dhcp_port_client (message_bytes m)) s

route-dhcp_rx :
    (src_ip : ℕ) (xs : List ℕ) (s : Sys)
    → route src_ip dhcp_port_server dhcp_port_client xs (length xs) s
      ≡ dhcp_rx src_ip xs (length xs) s
unfolding route
route-dhcp_rx src_ip xs s = refl

ip_rx-server_frame :
    (lag : ℕ) (mac : Mac) (dst : ℕ) (m : Message) (s t : Sys)
    → IsPrompt lag t.os.oracle
    → dst < 2 ^ 32
    → s.net.ip < 2 ^ 32
    → IsMessage m
    → length (message_bytes m) ≤ 1458
    → m.xid ≡ t.net.dhcp_xid
    → not_for_us t.net.ip dst ≡ false
    → let h = heard_from s t in
      (k : Traffic) × (ip_rx (server_frame mac dst m s) t
        ≡ done tt (after k (with_net (react s.net.ip (lease_of m) h.net) h)))
ip_rx-server_frame lag mac dst m s t prompt hd hs ok small ours for_us =
    let xs = message_bytes m in
    let h = heard_from s t in
    let (k, e) = dhcp_rx-message_bytes lag s.net.ip m h prompt ok ours in
    (
      k,
      ip_rx-route mac dst dhcp_port_server dhcp_port_client xs s t hd hs (omega arith) (omega arith)
            (omega (arith, length-message_bytes m ok)) small for_us
          ∙ route-dhcp_rx s.net.ip xs h
          ∙ e,
    )

-- On a device that answers, a client in the state DISCOVER that receives the frame of a
-- well-formed offer and then that of a well-formed acknowledgement, from any server and another or
-- the same, both of its transaction, is bound at the end, and its address, netmask, gateway and
-- name server are those of the acknowledgement, with the netmask 255.255.255.0 where it names
-- none. The frames are those in which ip_tx packs the datagrams, to 32-bit addresses that the
-- client does not drop and from 32-bit addresses, and a message has at most 1458 bytes.
pub dhcp_end_to_end :
    (lag : ℕ) (mac mac' : Mac) (dst dst' : ℕ) (offer ack : Message) (s s' t : Sys)
    → IsPrompt lag t.os.oracle
    → dst < 2 ^ 32
    → dst' < 2 ^ 32
    → s.net.ip < 2 ^ 32
    → s'.net.ip < 2 ^ 32
    → IsMessage offer
    → IsMessage ack
    → length (message_bytes offer) ≤ 1458
    → length (message_bytes ack) ≤ 1458
    → offer.xid ≡ t.net.dhcp_xid
    → ack.xid ≡ t.net.dhcp_xid
    → not_for_us t.net.ip dst ≡ false
    → not_for_us t.net.ip dst' ≡ false
    → t.net.dhcp_state ≡ discover
    → type_of offer ≡ dhcp_offer
    → type_of ack ≡ dhcp_ack
    → (u : Sys) × ((ip_rx (server_frame mac dst offer s) >>= λ _.
            ip_rx (server_frame mac' dst' ack s'))
          t
        ≡ done tt u)
      × (u.net.dhcp_state ≡ bound)
      × (u.net.ip ≡ ack.your_ip)
      × (u.net.netmask ≡ or_default (opt32_value (find_opt opt_subnet 4 ack.options)) 0xffff_ff00)
      × (u.net.gateway ≡ opt32_value (find_opt opt_router 4 ack.options))
      × (u.net.dns ≡ opt32_value (find_opt opt_dns 4 ack.options))
unfolding accept_offer accept_ack
dhcp_end_to_end lag mac mac' dst dst' offer ack s s' t prompt hd hd' hs hs' ok ok' small small' ours
      ours' for_us for_us' discovers offers grants =
    let h = heard_from s t in
    let (k, e) = ip_rx-server_frame lag mac dst offer s t prompt hd hs ok small ours for_us in
    let t1 = after k (with_net (accept_offer s.net.ip (lease_of offer) h.net) h) in
    let e1 : ip_rx (server_frame mac dst offer s) t ≡ done tt t1 =
      e
      ∙ ap (λ n. done tt (after k (with_net n h)))
          (react_offer s.net.ip (lease_of offer) h.net offers discovers) in
    let h1 = heard_from s' t1 in
    let (k2, e2) =
      ip_rx-server_frame lag mac' dst' ack s' t1 prompt hd' hs' ok' small' ours' for_us' in
    let grant = react_ack s'.net.ip (lease_of ack) h1.net grants refl in
    (
      after k2 (with_net (accept_ack (lease_of ack) h1.net) h1),
      rw e1 (e2 ∙ ap (λ n. done tt (after k2 (with_net n h1))) grant),
      refl,
      refl,
      refl,
      refl,
      refl,
    )
