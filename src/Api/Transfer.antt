-- ===== src/Api/Transfer.antt =====
-- A program on one machine sends data to a program on another, through the requests of both.
use netd_moduos.Common.{
  ℕ, ◌^◌, ◌≤◌, ◌<◌, ◌≡◌, ◌≢◌, ap, ◌∙◌, false, List, some, pos, length, length-take, take, min,
  arith,
}
use netd_moduos.State.{M, Mac, UdpBind, Sys, done, pure, and_then}
use netd_moduos.Api.Reply.{reply, status_only, reply_bytes}
use netd_moduos.Wire.Constants.{ipproto_udp, dhcp_port_client, dns_port}
use netd_moduos.Arp.{learn}
use netd_moduos.Arp.Lookup.{ticked, now_of, with_cache}
use netd_moduos.Ip.Tx.{ip_tx}
use netd_moduos.Ip.Tx.Laws.Send.{ip_frame}
use netd_moduos.Udp.Table.Laws.{servers, IsSized}
use netd_moduos.Udp.Tx.{datagram}
use netd_moduos.Ip.Rx.{ip_rx, not_for_us}
use netd_moduos.Ip.Rx.Delivery.{with_binds, udp_end_to_end}
use netd_moduos.Api.Invoke.{api_invoke}
use netd_moduos.Api.Requests.{
  send_request, receive_request, received_data, answer_status, api_invoke-send_request,
  api_invoke-receive_request,
}

-- A program on `s` sends to a program on `t`: the request NETD_CMD_UDP_SEND hands the datagram to
-- ip_tx and answers with its status; the frame in which ip_tx packs it makes `t`, if it does not
-- drop the destination, learn the sender and keep the data for the port; and the request
-- NETD_CMD_UDP_RECV is then answered with the status 0 and the sender's address and port, the
-- number of bytes, and the data as far as `max` goes. The data has 1 to 1458 bytes, `max` is a
-- 16-bit number and not 0, the port is bound, the receive buffers have their size, addresses and
-- ports are 32-bit and 16-bit numbers, and neither port is one that udp_rx gives to DHCP or DNS.
pub api_end_to_end :
    (yield : M (Unit {0})) (mac : Mac) (dst src_port dst_port max out_size out_size' : ℕ)
    (xs : List ℕ) (s t : Sys)
    → dst < 2 ^ 32
    → s.net.ip < 2 ^ 32
    → src_port < 2 ^ 16
    → dst_port < 2 ^ 16
    → dst_port ≢ dhcp_port_client
    → src_port ≢ dns_port
    → 0 < length xs
    → length xs ≤ 1458
    → 0 < max
    → max < 2 ^ 16
    → not_for_us t.net.ip dst ≡ false
    → IsSized t.net.udp_binds
    → 1 ≤ servers dst_port t.net.udp_binds
    → let payload = datagram src_port dst_port xs in
      let heard = ticked (with_cache (learn s.net.ip s.net.mac (now_of t) t.net.arp_cache) t) in
      let got = take (min max (length xs)) xs in
      (bs bs' : List UdpBind) × (api_invoke yield (send_request dst src_port dst_port xs) out_size s
        ≡ answer_status out_size (ip_tx dst ipproto_udp payload) s)
      × (ip_rx (ip_frame mac dst ipproto_udp payload s) t ≡ done tt (with_binds bs heard))
      × (api_invoke yield (receive_request dst_port max) out_size' (with_binds bs heard)
          ≡ done
              (some (reply_bytes out_size' (reply (pos 0) (received_data s.net.ip src_port got))))
              (with_binds bs' heard))
api_end_to_end yield mac dst src_port dst_port max out_size out_size' xs s t hd hs hsp hdp a b some'
      small given hm ours sized bound' =
    let (bs, bs', sent, heard, handed) =
      udp_end_to_end mac dst src_port dst_port max xs s t hd hs hsp hdp a b some' small ours sized
        bound' in
    let got = take (min max (length xs)) xs in
    let size : length got ≡ min max (length xs) =
      omega (arith, length-take (min max (length xs)) xs) in
    (
      bs,
      bs',
      api_invoke-send_request yield dst src_port dst_port out_size xs s hd hsp hdp
            (omega (arith, small))
          ∙ ap (λ o. and_then o λ status. pure (some (reply_bytes out_size (status_only status))))
              sent,
      heard,
      api_invoke-receive_request yield dst_port max out_size' s.net.ip src_port got bs bs'
          (ticked (with_cache (learn s.net.ip s.net.mac (now_of t) t.net.arp_cache) t)) hdp given hm
          (omega (arith, size, some', given)) (omega (arith, size, small)) handed,
    )
