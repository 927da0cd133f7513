-- ===== src/Live/Receive.antt =====
-- Everything that a received frame reaches.
use netd_moduos.Common.{ℕ, ◌+◌, ◌≢◌, refl, ◌&&◌, List, ◌==◌, arith}
use netd_moduos.State.{Mac, Oracle}
use netd_moduos.Driver.{Received, rx_error, nothing, frame}
use netd_moduos.Driver.Reply.{IsPrompt}
use netd_moduos.Arp.{arp_answer, arp_hear, arp_rx}
use netd_moduos.Icmp.{answer_echo, note_reply, icmp_rx, icmp_ping}
use netd_moduos.Udp.Rx.{deliver_to, route, udp_rx}
use netd_moduos.Dhcp.Options.{
  Walk, at, absent, outside, unfinished, opt32_at, dhcp_get_opt32, byte_at, dhcp_get_msg_type,
}
use netd_moduos.Dhcp.Options.Ends.{walk_ends}
use netd_moduos.Dhcp.Client.{
  dhcp_offer, dhcp_ack, is_discover, is_request, dhcp_send, Lease, accept_ack, dhcp_react,
  read_lease, dhcp_rx,
}
use netd_moduos.Dns.Rx.{Scan, address, no_address, beyond, endless, scan, finish, dns_rx}
use netd_moduos.Dns.Rx.Laws.{scan_ends}
use netd_moduos.Ip.Rx.{dispatch, ip_rx}
use netd_moduos.Main.Rx.{rx_frame, on_received}
use netd_moduos.Live.Rules.{
  Ends, Ends-crash, Ends-bind, Ends-gets, Ends-if, Ends-modify, ends_rules,
}
use netd_moduos.Live.Send.{
  udp_tx-Ends, ip_tx-Ends, arp_send-Ends, arp_learn-Ends, arp_announce-Ends,
}

module _ {P : Oracle → Type 0} (lag : ℕ) (is_prompt : (o : Oracle) → P o → IsPrompt lag o) where
  arp_answer-Ends : (op src dst : ℕ) (mac : Mac) → Ends P (arp_answer op src dst mac)
  unfolding arp_answer
  arp_answer-Ends op src dst mac = search (ends_rules, (arp_send-Ends lag is_prompt))

  arp_hear-Ends : (src : ℕ) (mac : Mac) → Ends P (arp_hear src mac)
  unfolding arp_hear
  arp_hear-Ends src mac = search (ends_rules, (arp_learn-Ends lag is_prompt))

  arp_rx-Ends : (bytes : List ℕ) → Ends P (arp_rx bytes)
  unfolding arp_rx
  arp_rx-Ends bytes = search (ends_rules, arp_hear-Ends, arp_answer-Ends) depth 9

  answer_echo-Ends : (src : ℕ) (data' : List ℕ) (len : ℕ) → Ends P (answer_echo src data' len)
  unfolding answer_echo
  answer_echo-Ends src data' len = search (ends_rules, (ip_tx-Ends lag is_prompt))

  note_reply-Ends : (src id seq : ℕ) → Ends P (note_reply src id seq)
  unfolding note_reply
  note_reply-Ends src id seq = search ends_rules

  icmp_rx-Ends : (src : ℕ) (data' : List ℕ) (len : ℕ) → Ends P (icmp_rx src data' len)
  unfolding icmp_rx
  icmp_rx-Ends src data' len = search (ends_rules, answer_echo-Ends, note_reply-Ends) depth 9

  pub icmp_ping-Ends : (dst id seq : ℕ) → Ends P (icmp_ping dst id seq)
  unfolding icmp_ping
  icmp_ping-Ends dst id seq = search (ends_rules, (ip_tx-Ends lag is_prompt))

  opt32_at-Ends : (opts : List ℕ) (w : Walk) → w ≢ unfinished → Ends P (opt32_at opts w)
  unfolding opt32_at
  opt32_at-Ends opts (at j) h = search ends_rules
  opt32_at-Ends opts absent h = search ends_rules
  opt32_at-Ends opts outside h = Ends-crash P
  opt32_at-Ends opts unfinished h = absurd (h refl)

  dhcp_get_opt32-Ends : (opts : List ℕ) (len tag : ℕ) → Ends P (dhcp_get_opt32 opts len tag)
  unfolding dhcp_get_opt32
  dhcp_get_opt32-Ends opts len tag =
      opt32_at-Ends opts _ (walk_ends (len + 1) opts len tag 4 0 (omega arith) (omega arith))

  byte_at-Ends : (opts : List ℕ) (w : Walk) → w ≢ unfinished → Ends P (byte_at opts w)
  unfolding byte_at
  byte_at-Ends opts (at j) h = search ends_rules
  byte_at-Ends opts absent h = search ends_rules
  byte_at-Ends opts outside h = Ends-crash P
  byte_at-Ends opts unfinished h = absurd (h refl)

  dhcp_get_msg_type-Ends : (opts : List ℕ) (len : ℕ) → Ends P (dhcp_get_msg_type opts len)
  unfolding dhcp_get_msg_type
  dhcp_get_msg_type-Ends opts len =
      byte_at-Ends opts _ (walk_ends (len + 1) opts len 53 1 0 (omega arith) (omega arith))

  read_lease-Ends : (data' : List ℕ) (len : ℕ) → Ends P (read_lease data' len)
  unfolding read_lease
  read_lease-Ends data' len =
      search (ends_rules, dhcp_get_msg_type-Ends, dhcp_get_opt32-Ends) depth 9

  pub dhcp_send-Ends :
      (msg_type req_ip server_id : ℕ) → Ends P (dhcp_send msg_type req_ip server_id)
  unfolding dhcp_send
  dhcp_send-Ends msg_type req_ip server_id = search (ends_rules, (udp_tx-Ends lag is_prompt))

  dhcp_react-Ends : (src_ip : ℕ) (l : Lease) → Ends P (dhcp_react src_ip l)
  unfolding dhcp_react
  dhcp_react-Ends src_ip l = Ends-bind P _ _ (Ends-gets P (λ n. n.dhcp_state)) λ state.
      Ends-if P ((l.msg_type == dhcp_offer) && is_discover state) _ _
        (search (ends_rules, dhcp_send-Ends))
        (Ends-if P ((l.msg_type == dhcp_ack) && is_request state) _ _
          (Ends-bind P _ _ (Ends-modify P (accept_ack l)) λ _. arp_announce-Ends lag is_prompt)
          (search ends_rules))

  dhcp_rx-Ends : (src_ip : ℕ) (data' : List ℕ) (len : ℕ) → Ends P (dhcp_rx src_ip data' len)
  unfolding dhcp_rx
  dhcp_rx-Ends src_ip data' len = search (ends_rules, read_lease-Ends, dhcp_react-Ends) depth 12

  finish-Ends : (k : Scan) → k ≢ endless → Ends P (finish k)
  unfolding finish
  finish-Ends (address ip) h = search ends_rules
  finish-Ends no_address h = search ends_rules
  finish-Ends beyond h = Ends-crash P
  finish-Ends endless h = absurd (h refl)

  finish-scan-Ends :
      (ancount : ℕ) (data' : List ℕ) (len : ℕ) → Ends P (finish (scan ancount data' len))
  finish-scan-Ends ancount data' len = finish-Ends _ (scan_ends ancount data' len)

  dns_rx-Ends : (data' : List ℕ) (len : ℕ) → Ends P (dns_rx data' len)
  unfolding dns_rx
  dns_rx-Ends data' len = search (ends_rules, finish-scan-Ends) depth 12

  deliver_to-Ends :
      (dst_port src_ip src_port : ℕ) (payload : List ℕ) (len : ℕ)
      → Ends P (deliver_to dst_port src_ip src_port payload len)
  unfolding deliver_to
  deliver_to-Ends dst_port src_ip src_port payload len = search ends_rules

  route-Ends :
      (src_ip src_port dst_port : ℕ) (payload : List ℕ) (len : ℕ)
      → Ends P (route src_ip src_port dst_port payload len)
  unfolding route
  route-Ends src_ip src_port dst_port payload len =
      search (ends_rules, dhcp_rx-Ends, dns_rx-Ends, deliver_to-Ends)

  udp_rx-Ends : (src_ip : ℕ) (data' : List ℕ) (len : ℕ) → Ends P (udp_rx src_ip data' len)
  unfolding udp_rx
  udp_rx-Ends src_ip data' len = search (ends_rules, route-Ends) depth 9

  dispatch-Ends :
      (proto src_ip : ℕ) (payload : List ℕ) (len : ℕ) → Ends P (dispatch proto src_ip payload len)
  unfolding dispatch
  dispatch-Ends proto src_ip payload len = search (ends_rules, icmp_rx-Ends, udp_rx-Ends)

  ip_rx-Ends : (bytes : List ℕ) → Ends P (ip_rx bytes)
  unfolding ip_rx
  ip_rx-Ends bytes = search (ends_rules, (arp_learn-Ends lag is_prompt), dispatch-Ends) depth 14

  rx_frame-Ends : (bytes : List ℕ) → Ends P (rx_frame bytes)
  unfolding rx_frame
  rx_frame-Ends bytes = search (ends_rules, ip_rx-Ends, arp_rx-Ends)

  pub on_received-Ends : (r : Received) → Ends P (on_received r)
  unfolding on_received
  on_received-Ends rx_error = search ends_rules
  on_received-Ends nothing = search ends_rules
  on_received-Ends (frame bytes) = rx_frame-Ends bytes
