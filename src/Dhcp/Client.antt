-- ===== src/Dhcp/Client.antt =====
-- dhcp_send, dhcp_start, dhcp_rx and dhcp_bound of dhcp.c.
pub mod React
pub mod Lifecycle
pub mod Options
pub mod Message
use netd_moduos.Common.{
  ℕ, ◌+◌, ◌-◌, ◌%◌, ◌^◌, bit_xor, Bool, true, false, ◌&&◌, ◌||◌, not, List, [], ◌∷◌, ◌++◌, ℤ, ltb,
  ◌==◌, if◌then◌else◌, length, set, drop, replicate, get_elem?,
}
use netd_moduos.Wire.Constants.{ip_bcast, dhcp_port_client, dhcp_port_server}
use netd_moduos.Wire.Endian.{htons, htonl, ntohl}
use netd_moduos.Wire.Memory.{store, store16, store32, load32}
use netd_moduos.State.{
  Mac, mac_bytes, DhcpState, idle, discover, offer, request, bound, failed, Net, M, pure, skip,
  need, gets, modify, time_ms, ignore, ◌>>=◌, ◌>>◌, and_then,
}
use netd_moduos.Arp.{arp_announce}
use netd_moduos.Udp.Table.{udp_bind}
use netd_moduos.Udp.Tx.{udp_tx}
use netd_moduos.Dhcp.Options.{
  opt_end, opt_msg_type, opt_subnet, opt_router, opt_dns, opt_server_id, opt_req_ip, dhcp_get_opt32,
  dhcp_get_msg_type,
}

abbrev pub dhcp_magic : ℕ
dhcp_magic = 0x6382_5363

abbrev pub dhcp_fixed_len : ℕ
dhcp_fixed_len = 236

-- The message types that the client sends and reads.
abbrev pub dhcp_discover : ℕ
dhcp_discover = 1

abbrev pub dhcp_offer : ℕ
dhcp_offer = 2

abbrev pub dhcp_request : ℕ
dhcp_request = 3

abbrev pub dhcp_ack : ℕ
dhcp_ack = 5

abbrev pub dhcp_nak : ℕ
dhcp_nak = 6

-- `htonl(v)` as the four bytes that are stored.
abbrev pub long_bytes : ℕ → List ℕ
long_bytes v = store32 (replicate 4 0) 0 (htonl v)

-- One option with a 32-bit value, left out if the value is 0.
unfoldable pub opt32 : ℕ → ℕ → List ℕ
opt32 tag v = if v == 0 then [] else tag ∷ 4 ∷ long_bytes v

unfoldable pub dhcp_options : ℕ → ℕ → ℕ → List ℕ
dhcp_options msg_type req_ip server_id =
    (opt_msg_type ∷ 1 ∷ msg_type ∷ [])
    ++ ((if msg_type == dhcp_request
          then opt32 opt_req_ip req_ip ++ opt32 opt_server_id server_id
          else [])
        ++ (opt_end ∷ []))

-- The 236 bytes before the magic cookie.
unfoldable pub dhcp_fixed : Mac → ℕ → List ℕ
dhcp_fixed own xid =
    let start : List ℕ = set (set (set (set (replicate 236 0) 0 1) 1 1) 2 6) 3 0 in
    store (store16 (store32 start 4 (htonl xid)) 10 (htons 0x8000)) 28 (mac_bytes own)

-- The `total` bytes of `pkt` that are sent.
unfoldable pub dhcp_packet : Mac → ℕ → ℕ → ℕ → ℕ → List ℕ
dhcp_packet own xid msg_type req_ip server_id =
    dhcp_fixed own xid ++ (long_bytes dhcp_magic ++ dhcp_options msg_type req_ip server_id)

unfoldable pub dhcp_send : ℕ → ℕ → ℕ → M ℤ
dhcp_send msg_type req_ip server_id = do
  own ← gets (λ n. n.mac)
  xid ← gets (λ n. n.dhcp_xid)
  udp_tx ip_bcast dhcp_port_client dhcp_port_server (dhcp_packet own xid msg_type req_ip server_id)

-- The assignments at the start of dhcp_start.
unfoldable pub reset_lease : ℕ → Net → Net
reset_lease xid n = record n {
  dhcp_xid = xid;
  dhcp_state = discover;
  ip = 0;
  netmask = 0;
  gateway = 0;
  dns = 0;
}

unfoldable pub dhcp_start : M (Unit {0})
dhcp_start = do
  now ← time_ms
  modify (reset_lease (bit_xor now 0xabcd_1234 % 2 ^ 32))
  ignore (udp_bind dhcp_port_client)
  ignore (dhcp_send dhcp_discover 0 0)

abbrev pub is_discover : DhcpState → Bool
is_discover discover = true
is_discover _ = false

abbrev pub is_request : DhcpState → Bool
is_request request = true
is_request _ = false

abbrev pub is_bound_state : DhcpState → Bool
is_bound_state bound = true
is_bound_state _ = false

unfoldable pub dhcp_bound : Net → Bool
dhcp_bound n = is_bound_state n.dhcp_state

abbrev pub or_default : ℕ → ℕ → ℕ
or_default v d = if v == 0 then d else v

-- What dhcp_rx reads out of a packet.
pub record Lease : Type 0 where
  pub msg_type : ℕ
  pub your_ip : ℕ
  pub server_id : ℕ
  pub subnet : ℕ
  pub router : ℕ
  pub dns : ℕ

unfoldable pub accept_offer : ℕ → Lease → Net → Net
accept_offer src_ip l n = record n {
  dhcp_server = or_default l.server_id src_ip;
  dhcp_state = request;
}

unfoldable pub accept_ack : Lease → Net → Net
accept_ack l n = record n {
  ip = l.your_ip;
  netmask = or_default l.subnet 0xffff_ff00;
  gateway = l.router;
  dns = l.dns;
  dhcp_state = bound;
}

-- The three branches at the end of dhcp_rx.
unfoldable pub dhcp_react : ℕ → Lease → M (Unit {0})
dhcp_react src_ip l = do
  state ← gets (λ n. n.dhcp_state)
  if (l.msg_type == dhcp_offer) && is_discover state
      then (modify (accept_offer src_ip l)
          >> ignore (dhcp_send dhcp_request l.your_ip (or_default l.server_id src_ip)))
      else if (l.msg_type == dhcp_ack) && is_request state
      then modify (accept_ack l) >> arp_announce
      else if l.msg_type == dhcp_nak
      then modify (λ n. record n { dhcp_state = failed })
      else skip

-- The reads of dhcp_rx after the checks: `opts` is what can be read from the options on.
unfoldable pub read_lease : List ℕ → ℕ → M Lease
read_lease data' len = do
  let opts = drop (dhcp_fixed_len + 4) data'
  let opts_len = len - dhcp_fixed_len - 4
  msg_type ← dhcp_get_msg_type opts opts_len
  your_ip ← need (load32 data' 16)
  server_id ← dhcp_get_opt32 opts opts_len opt_server_id
  subnet ← dhcp_get_opt32 opts opts_len opt_subnet
  router ← dhcp_get_opt32 opts opts_len opt_router
  dns ← dhcp_get_opt32 opts opts_len opt_dns
  pure (record {
    msg_type = msg_type;
    your_ip = ntohl your_ip;
    server_id = server_id;
    subnet = subnet;
    router = router;
    dns = dns;
  })

-- dhcp_rx; `data'` is what can be read from `data` on, and `len` what the packet claims.
unfoldable pub dhcp_rx : ℕ → List ℕ → ℕ → M (Unit {0})
dhcp_rx src_ip data' len = if ltb len (dhcp_fixed_len + 4) then skip else (do
  op ← need (get_elem? data' 0)
  if not (op == 2) then skip else (do
    xid ← need (load32 data' 4)
    expected ← gets (λ n. n.dhcp_xid)
    if not (ntohl xid == expected) then skip else (do
      magic ← need (load32 data' dhcp_fixed_len)
      if not (ntohl magic == dhcp_magic)
          then skip
          else read_lease data' len >>= dhcp_react src_ip)))
