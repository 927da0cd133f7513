-- ===== src/Dhcp/Client/React.antt =====
-- What a DHCP message does to the settings, as a function on them, and that the handler does it.
use netd_moduos.Common.{
  ℕ, ◌≤◌, ◌≡◌, refl, ◌&&◌, [], ◌∷◌, ◌++◌, ℤ, ◌==◌, if◌then◌else◌, arith, length, length-append,
  Bool-cases, inl, inr,
}
use netd_moduos.Wire.Constants.{ip_bcast, dhcp_port_client, dhcp_port_server}
use netd_moduos.State.{Mac, failed, Net, Sys, done}
use netd_moduos.Driver.Reply.{IsPrompt}
use netd_moduos.Arp.{arp_announce, arp_frame}
use netd_moduos.Arp.Handshake.{arp_send-transmits}
use netd_moduos.Ip.Tx.Laws.Total.{Traffic, after, traffic_of}
use netd_moduos.Driver.Transmit.{transmitted}
use netd_moduos.State.{bcast_mac}
use netd_moduos.Udp.Tx.Laws.{udp_tx-returns}
use netd_moduos.Dhcp.Client.{
  long_bytes, opt32, dhcp_options, dhcp_fixed, dhcp_packet, dhcp_send, dhcp_magic, dhcp_request,
  dhcp_offer, dhcp_ack, dhcp_nak, is_discover, is_request, or_default, Lease, accept_offer,
  accept_ack, dhcp_react,
}

-- The settings after a message of the current exchange.
unfoldable pub react : ℕ → Lease → Net → Net
react src_ip l n =
    if (l.msg_type == dhcp_offer) && is_discover n.dhcp_state
    then accept_offer src_ip l n
    else if (l.msg_type == dhcp_ack) && is_request n.dhcp_state
    then accept_ack l n
    else if l.msg_type == dhcp_nak
    then record n { dhcp_state = failed }
    else n

length-opt32-le : (tag v : ℕ) → length (opt32 tag v) ≤ 6
unfolding opt32
length-opt32-le tag v = ground arith

length-dhcp_options-le :
    (msg_type req_ip server_id : ℕ) → length (dhcp_options msg_type req_ip server_id) ≤ 16
unfolding dhcp_options
length-dhcp_options-le msg_type req_ip server_id =
    let both = opt32 50 req_ip ++ opt32 54 server_id in
    let short : length both ≤ 12 = omega (
      arith,
      length-append (opt32 50 req_ip) (opt32 54 server_id),
      length-opt32-le 50 req_ip,
      length-opt32-le 54 server_id,
    ) in
    elim (Bool-cases (msg_type == dhcp_request)) [
      | inl asks ↦ rw (asks, dhcp_options) (omega (arith, length-append both (255 ∷ []), short))
      | inr other ↦ rw (other, dhcp_options) (omega arith)
    ]

length-dhcp_fixed : (own : Mac) (xid : ℕ) → length (dhcp_fixed own xid) ≡ 236
unfolding dhcp_fixed
length-dhcp_fixed own xid = refl

length-dhcp_packet-le :
    (own : Mac) (xid msg_type req_ip server_id : ℕ)
    → length (dhcp_packet own xid msg_type req_ip server_id) ≤ 256
unfolding dhcp_packet
length-dhcp_packet-le own xid msg_type req_ip server_id =
    let opts = dhcp_options msg_type req_ip server_id in
    omega (
      arith,
      length-append (dhcp_fixed own xid) (long_bytes dhcp_magic ++ opts),
      length-dhcp_fixed own xid,
      length-dhcp_options-le msg_type req_ip server_id,
    )

-- The packets of the client fit, so that sending one returns.
pub dhcp_send-returns :
    (lag msg_type req_ip server_id : ℕ) (s : Sys)
    → IsPrompt lag s.os.oracle
    → (status : ℤ) × (t : Traffic) × (dhcp_send msg_type req_ip server_id s
        ≡ done status (after t s))
unfolding dhcp_send
dhcp_send-returns lag msg_type req_ip server_id s prompt =
    udp_tx-returns lag ip_bcast dhcp_port_client dhcp_port_server
      (dhcp_packet s.net.mac s.net.dhcp_xid msg_type req_ip server_id) s prompt
      (omega (arith, length-dhcp_packet-le s.net.mac s.net.dhcp_xid msg_type req_ip server_id))

abbrev pub with_net : Net → Sys → Sys
with_net n s = record s { net = n }

-- On a device that answers, the end of dhcp_rx returns on every message and in every state, and
-- the settings become those of `react`, but for the neighbour table, which sending may change.
pub dhcp_react-react :
    (lag src_ip : ℕ) (l : Lease) (s : Sys)
    → IsPrompt lag s.os.oracle
    → (t : Traffic) × (dhcp_react src_ip l s
        ≡ done tt (after t (with_net (react src_ip l s.net) s)))
unfolding dhcp_react react arp_announce
dhcp_react-react lag src_ip l s prompt =
    elim (Bool-cases ((l.msg_type == dhcp_offer) && is_discover s.net.dhcp_state)) [
      | inl offered ↦
          let s' = with_net (accept_offer src_ip l s.net) s in
          let (status, t, e) =
            dhcp_send-returns lag dhcp_request l.your_ip (or_default l.server_id src_ip) s'
              prompt in
          (t, rw (offered, dhcp_react, react, e) refl)
      | inr no_offer ↦ elim (Bool-cases ((l.msg_type == dhcp_ack) && is_request s.net.dhcp_state)) [
        | inl granted ↦
            let s' = with_net (accept_ack l s.net) s in
            let (n, e) = arp_send-transmits lag 1 bcast_mac s'.net.ip s'.net.ip s' prompt in
            (
              traffic_of (transmitted (arp_frame s'.net.mac 1 bcast_mac s'.net.ip s'.net.ip) n s'),
              rw (no_offer, dhcp_react, react, granted, e) refl,
            )
        | inr no_grant ↦ elim (Bool-cases (l.msg_type == dhcp_nak)) [
          | inl refused ↦ (traffic_of s, rw (no_offer, dhcp_react, react, no_grant, refused) refl)
          | inr nothing' ↦ (traffic_of s, rw (no_offer, dhcp_react, react, no_grant, nothing') refl)
        ]
      ]
    ]
