-- ===== src/Examples/Receive.antt =====
-- What packets do to a machine that receives them.
use netd_moduos.Common.{
  ℕ, ◌+◌, ◌≤◌, ◌≡◌, refl, true, false, List, [], ◌∷◌, some, replicate, take, min, arith, pos,
}
use netd_moduos.Wire.Constants.{ipproto_icmp, ipproto_udp}
use netd_moduos.State.{skip, UdpBind, zero_udp_bind, done, fault, ignore}
use netd_moduos.Arp.{learn}
use netd_moduos.Arp.Lookup.{ticked, now_of, with_cache}
use netd_moduos.Ip.Tx.{ip_tx}
use netd_moduos.Ip.Tx.Laws.Send.{ip_frame}
use netd_moduos.Ip.Rx.{ip_rx, not_for_us}
use netd_moduos.Ip.Rx.Delivery.{with_binds}
use netd_moduos.Api.Reply.{reply, reply_bytes}
use netd_moduos.Api.Invoke.{api_invoke}
use netd_moduos.Api.Requests.{send_request, receive_request, answer_status, received_data}
use netd_moduos.Api.Transfer.{api_end_to_end}
use netd_moduos.Icmp.{echo_reply, echo_request, icmp_rx}
use netd_moduos.Ip.Rx.Truncated.{ip_rx-overreads}
use netd_moduos.Icmp.Laws.{icmp_rx-overruns, noted, ping_exchange}
use netd_moduos.Udp.Table.{is_bound, claim, bind}
use netd_moduos.Udp.Table.Laws.{servers, IsDistinct, IsSized}
use netd_moduos.Udp.Tx.{datagram}
use netd_moduos.Examples.World.{
  oracle-IsPrompt, mac_a, mac_b, ip_a, ip_b, bound_4000, machine_a, machine_b,
}

b_takes : not_for_us machine_b.net.ip ip_b ≡ false
unfolding not_for_us
b_takes = refl

abbrev echo_rest : List ℕ
echo_rest = 0 ∷ 0 ∷ 0 ∷ 0 ∷ 7 ∷ 0 ∷ 1 ∷ 9 ∷ []

icmp_rx-overruns_example : icmp_rx ip_b (8 ∷ replicate 1466 0) 1467 machine_a ≡ fault
icmp_rx-overruns_example =
    icmp_rx-overruns 0 ip_b 1467 (replicate 1466 0) machine_a oracle-IsPrompt (omega arith)
      (omega arith)

-- An echo request with one byte of data, which is cut off.
ip_rx-overreads_example :
    ip_rx
      (take {A = ℕ} (35 + 7) (ip_frame mac_b ip_b ipproto_icmp (8 ∷ echo_rest) machine_a))
      machine_b
    ≡ fault
ip_rx-overreads_example =
    ip_rx-overreads mac_b ip_b 7 echo_rest machine_a machine_b (ground arith) (ground arith)
      (omega arith) (omega arith) (omega arith) b_takes

ping_exchange_example :
    let request = echo_request 7 1 in
    let reply = echo_reply request in
    (icmp_rx ip_a request 16 machine_b ≡ ignore (ip_tx ip_a ipproto_icmp reply) machine_b)
    × (icmp_rx ip_b reply 16 machine_a ≡ done tt (noted ip_b 7 1 machine_a))
ping_exchange_example =
    ping_exchange 0 ip_a ip_b 7 1 machine_b machine_a oracle-IsPrompt (omega arith) (omega arith)

abbrev table : List UdpBind
table = bound_4000 ∷ zero_udp_bind ∷ []

abbrev table' : List UdpBind
table' = bound_4000 ∷ record zero_udp_bind { port = 53; used = true } ∷ []

table-IsDistinct : IsDistinct table
unfolding servers zero_udp_bind
table-IsDistinct port = ground arith

bind-table : bind 53 table ≡ some table'
unfolding bind is_bound claim zero_udp_bind
bind-table = refl

b-IsSized : IsSized machine_b.net.udp_binds
unfolding zero_udp_bind
b-IsSized = ((refl, omega arith), tt)

b_serves : 1 ≤ servers 4000 machine_b.net.udp_binds
unfolding servers
b_serves = omega arith

api_end_to_end_example :
    let payload = datagram 4001 4000 (104 ∷ 105 ∷ []) in
    let heard =
      ticked (with_cache (learn ip_a mac_a (now_of machine_b) machine_b.net.arp_cache) machine_b) in
    let got = take {A = ℕ} (min 100 2) (104 ∷ 105 ∷ []) in
    (bs bs' : List UdpBind) × (api_invoke skip
        (send_request ip_b 4001 4000 (104 ∷ 105 ∷ []))
        8
        machine_a
      ≡ answer_status 8 (ip_tx ip_b ipproto_udp payload) machine_a)
    × (ip_rx (ip_frame mac_b ip_b ipproto_udp payload machine_a) machine_b
        ≡ done tt (with_binds bs heard))
    × (api_invoke skip (receive_request 4000 100) 1508 (with_binds bs heard)
        ≡ done
            (some (reply_bytes 1508 (reply (pos 0) (received_data ip_a 4001 got))))
            (with_binds bs' heard))
api_end_to_end_example =
    api_end_to_end skip mac_b ip_b 4001 4000 100 8 1508 (104 ∷ 105 ∷ []) machine_a machine_b
      (omega arith) (omega arith) (omega arith) (omega arith) (ground arith) (ground arith)
      (omega arith) (omega arith) (omega arith) (omega arith) b_takes b-IsSized b_serves
