-- ===== src/Live/Requests.antt =====
-- api_invoke on a kernel whose device answers and whose clock goes on.
use netd_moduos.Common.{
  ℕ, zero, suc, ◌+◌, ◌%◌, ◌^◌, ◌<◌, ◌≡◌, ap, subst, sym, List, [], ◌∷◌, Option, none, some,
  get_elem?, arith, All, Option-cases, inl, inr,
}
use netd_moduos.Wire.Memory.{load16, load32}
use netd_moduos.Wire.Cksum.Laws.{IsByte}
use netd_moduos.State.{M, ignore}
use netd_moduos.Arp.{arp_lookup, arp_announce}
use netd_moduos.Arp.Lookup.{ticked, now_of}
use netd_moduos.Icmp.{icmp_ping}
use netd_moduos.Udp.Table.{Datagram, udp_recv, udp_unbind}
use netd_moduos.Dhcp.Client.{or_default}
use netd_moduos.Api.Reply.{Reply, with_size}
use netd_moduos.Api.Info.{get_info, set_ip_to, set_ip, look_up, arp_flush}
use netd_moduos.Api.Ping.{
  PingReply, no_reply, wait_reply, take_reply, ping_once, ping_rounds, ping_reply, ping,
}
use netd_moduos.Api.Ports.{bind_port, unbind_port, send_data, send, recv_reply, receive}
use netd_moduos.Api.Names.{resolve_name}
use netd_moduos.Api.Invoke.{
  Command, cmd_get_info, cmd_ping, cmd_udp_send, cmd_udp_recv, cmd_udp_bind, cmd_udp_unbind,
  cmd_dns_resolve, cmd_arp_lookup, cmd_arp_flush, cmd_set_ip, cmd_unknown, handle, api_invoke,
}
use netd_moduos.Live.Rules.{
  Finishes-Later, Finishes-seq, Ends, Ends-bind, Ends-bind-need, Ends-pure, Ends-time_ms,
  ends_rules,
}
use netd_moduos.Live.Send.{arp_lookup-Ends}
use netd_moduos.Live.Receive.{icmp_ping-Ends}
use netd_moduos.Live.Waits.{IsLive, live-IsPrompt, wait_reply-Finishes}
use netd_moduos.Live.Daemon.{
  Past-deadline, has_fuel, Later-now, sends_udp, announces, udp_bind-Ends, dns_resolve-Ends,
}

get_elem?-IsByte : (xs : List ℕ) (i b : ℕ) → All IsByte xs → get_elem? xs i ≡ some b → b < 256
get_elem?-IsByte [] i b all e = cc
get_elem?-IsByte (x ∷ xs) zero b all e = ground arith
get_elem?-IsByte (x ∷ xs) (suc i) b all e = get_elem?-IsByte xs i b all.1 e

-- A 16-bit load from bytes has 16 bits.
pub load16-lt : (xs : List ℕ) (i v : ℕ) → All IsByte xs → load16 xs i ≡ some v → v < 2 ^ 16
unfolding load16
load16-lt xs i v all e = elim (Option-cases (get_elem? xs i)) [
  | inl none' ↦ ground (arith, none')
  | inr (lo, e_lo) ↦ elim (Option-cases (get_elem? xs (i + 1))) [
    | inl none' ↦ ground (arith, e_lo, none')
    | inr (hi, e_hi) ↦ ground (
      arith,
      e_lo,
      e_hi,
      get_elem?-IsByte xs i lo all e_lo,
      get_elem?-IsByte xs (i + 1) hi all e_hi,
    )
  ]
]

module _ (lag : ℕ) (yield : M (Unit {0})) (ends : Ends (IsLive lag) yield) where
  pings : (dst id seq : ℕ) → Ends (IsLive lag) (icmp_ping dst id seq)
  pings = icmp_ping-Ends lag (live-IsPrompt lag)

  looks_up : (ip : ℕ) → Ends (IsLive lag) (arp_lookup ip)
  looks_up = arp_lookup-Ends lag (live-IsPrompt lag)

  take_reply-Ends : (rep : PingReply) → Ends (IsLive lag) (take_reply rep)
  unfolding take_reply
  take_reply-Ends rep = search ends_rules depth 9

  ping_once-Ends :
      (ip id seq timeout : ℕ) (rep : PingReply)
      → timeout < 2 ^ 16
      → Ends (IsLive lag) (ping_once yield ip id seq timeout rep)
  unfolding ping_once
  ping_once-Ends ip id seq timeout rep small = record {
    at = λ s live.
        let sent : Ends (IsLive lag) (ignore (icmp_ping ip id seq)) = search (ends_rules, pings) in
        Finishes-seq s (ignore (icmp_ping ip id seq) s) _ (sent.at s live) λ _ t later.
          let live' = subst (IsLive lag) (sym later.same_oracle) live in
          let same_fuel : t.os.fuel ≡ s.os.fuel = ap (λ o. o.fuel) later.same_oracle in
          let deadline = (now_of t + timeout) % 2 ^ 64 in
          Finishes-Later t (ticked t) _ (Later-now lag t) (
            Finishes-seq (ticked t) (wait_reply yield s.os.fuel deadline (ticked t)) _
              (wait_reply-Finishes lag (t.os.clock_calls + t.os.fuel) deadline yield ends s.os.fuel
                (ticked t) (has_fuel lag s live) (omega (arith, same_fuel)) live'
                (Past-deadline lag t timeout small live'))
              λ _ u later'.
                (take_reply-Ends rep).at u (subst (IsLive lag) (sym later'.same_oracle) live'));
  }

  ping_rounds-Ends :
      (left ip id seq timeout : ℕ) (rep : PingReply)
      → timeout < 2 ^ 16
      → Ends (IsLive lag) (ping_rounds yield left ip id seq timeout rep)
  unfolding ping_rounds
  ping_rounds-Ends zero ip id seq timeout rep small = search ends_rules
  ping_rounds-Ends (suc left) ip id seq timeout rep small =
      Ends-bind (IsLive lag) _ _ (ping_once-Ends ip id (seq % 2 ^ 16) timeout rep small)
        λ rep'. ping_rounds-Ends left ip id (seq + 1) timeout rep' small

  with_size-Ends :
      (size : ℕ) (req : List ℕ) (m : M Reply)
      → Ends (IsLive lag) m
      → Ends (IsLive lag) (with_size size req m)
  unfolding with_size
  with_size-Ends size req m em = search ends_rules

  ping-Ends : (req : List ℕ) → All IsByte req → Ends (IsLive lag) (ping yield req)
  unfolding ping
  ping-Ends req bytes = with_size-Ends 8 req _ (
      Ends-bind-need (IsLive lag) (load32 req 4) _ λ ip _.
        Ends-bind-need (IsLive lag) (load16 req 8) _ λ count _.
          Ends-bind-need (IsLive lag) (load16 req 10) _ λ timeout e.
            let small : or_default timeout 2000 < 2 ^ 16 =
              ground (arith, load16-lt req 10 timeout bytes e) in
            Ends-bind (IsLive lag) _ _ (Ends-time_ms (IsLive lag)) λ now.
              Ends-bind (IsLive lag) _ _
                (ping_rounds-Ends (or_default count 1) ip (now % 2 ^ 16) 1 (or_default timeout 2000)
                  no_reply small)
                λ rep. Ends-pure (IsLive lag) (ping_reply rep))

  get_info-Ends : Ends (IsLive lag) get_info
  unfolding get_info
  get_info-Ends = search ends_rules

  announced : Ends (IsLive lag) arp_announce
  announced = announces lag

  set_ip_to-Ends :
      (ip netmask gateway dns : ℕ) → Ends (IsLive lag) (set_ip_to ip netmask gateway dns)
  unfolding set_ip_to
  set_ip_to-Ends ip netmask gateway dns = search (ends_rules, announced) depth 9

  set_ip-Ends : (req : List ℕ) → Ends (IsLive lag) (set_ip req)
  unfolding set_ip
  set_ip-Ends req = search (ends_rules, with_size-Ends, set_ip_to-Ends) depth 9

  look_up-Ends : (req : List ℕ) → Ends (IsLive lag) (look_up req)
  unfolding look_up
  look_up-Ends req = search (ends_rules, with_size-Ends, looks_up) depth 9

  arp_flush-Ends : Ends (IsLive lag) arp_flush
  unfolding arp_flush
  arp_flush-Ends = search ends_rules

  bind_port-Ends : (req : List ℕ) → Ends (IsLive lag) (bind_port req)
  unfolding bind_port
  bind_port-Ends req = search (ends_rules, with_size-Ends, udp_bind-Ends lag) depth 9

  udp_unbind-Ends : (port : ℕ) → Ends (IsLive lag) (udp_unbind port)
  unfolding udp_unbind
  udp_unbind-Ends port = search ends_rules

  unbind_port-Ends : (req : List ℕ) → Ends (IsLive lag) (unbind_port req)
  unfolding unbind_port
  unbind_port-Ends req = search (ends_rules, with_size-Ends, udp_unbind-Ends) depth 9

  send_data-Ends :
      (dst_ip src_port dst_port len : ℕ) (data' : List ℕ)
      → Ends (IsLive lag) (send_data dst_ip src_port dst_port len data')
  unfolding send_data
  send_data-Ends dst_ip src_port dst_port len data' = search (ends_rules, sends_udp lag) depth 9

  send-Ends : (req : List ℕ) → Ends (IsLive lag) (send req)
  unfolding send
  send-Ends req = search (ends_rules, with_size-Ends, send_data-Ends) depth 9

  udp_recv-Ends : (port max : ℕ) → Ends (IsLive lag) (udp_recv port max)
  unfolding udp_recv
  udp_recv-Ends port max = search ends_rules

  recv_reply-Ends : (d : Option Datagram) → Ends (IsLive lag) (recv_reply d)
  unfolding recv_reply
  recv_reply-Ends none = search ends_rules
  recv_reply-Ends (some d) = search ends_rules

  receive-Ends : (req : List ℕ) → Ends (IsLive lag) (receive req)
  unfolding receive
  receive-Ends req = search (ends_rules, with_size-Ends, udp_recv-Ends, recv_reply-Ends) depth 9

  resolve_name-Ends : (req : List ℕ) → Ends (IsLive lag) (resolve_name req)
  unfolding resolve_name
  resolve_name-Ends req = search (ends_rules, with_size-Ends, dns_resolve-Ends lag) depth 9

  handle-Ends :
      (c : Command) (req : List ℕ) → All IsByte req → Ends (IsLive lag) (handle yield c req)
  unfolding handle
  handle-Ends cmd_get_info req bytes = get_info-Ends
  handle-Ends cmd_ping req bytes = ping-Ends req bytes
  handle-Ends cmd_udp_send req bytes = send-Ends req
  handle-Ends cmd_udp_recv req bytes = receive-Ends req
  handle-Ends cmd_udp_bind req bytes = bind_port-Ends req
  handle-Ends cmd_udp_unbind req bytes = unbind_port-Ends req
  handle-Ends cmd_dns_resolve req bytes = resolve_name-Ends req
  handle-Ends cmd_arp_lookup req bytes = look_up-Ends req
  handle-Ends cmd_arp_flush req bytes = arp_flush-Ends
  handle-Ends cmd_set_ip req bytes = set_ip-Ends req
  handle-Ends cmd_unknown req bytes = search ends_rules

  -- Every request is answered, or faults; the daemon never waits in one for ever.
  pub api_invoke-Ends :
      (req : List ℕ) (out_size : ℕ)
      → All IsByte req
      → Ends (IsLive lag) (api_invoke yield req out_size)
  unfolding api_invoke
  api_invoke-Ends req out_size bytes =
      let handled : (c : Command) → Ends (IsLive lag) (handle yield c req) =
        λ c. handle-Ends c req bytes in
      search (ends_rules, handled) depth 9
