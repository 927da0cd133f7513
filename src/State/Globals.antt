-- ===== src/State/Globals.antt =====
-- The global network state of netd.h, with the source's fields.
use netd_moduos.Common.{ℕ, Bool, false, List, [], ◌∷◌, ℤ, pos, replicate}

-- `uint8_t mac[6]`.
pub record Mac : Type 0 where
  pub m0 : ℕ
  pub m1 : ℕ
  pub m2 : ℕ
  pub m3 : ℕ
  pub m4 : ℕ
  pub m5 : ℕ

abbrev pub mac_bytes : Mac → List ℕ
mac_bytes m = m.m0 ∷ m.m1 ∷ m.m2 ∷ m.m3 ∷ m.m4 ∷ m.m5 ∷ []

-- arp_entry_t; `valid` is an int that holds 0 or 1.
pub record ArpEntry : Type 0 where
  pub ip : ℕ
  pub mac : Mac
  pub ts : ℕ
  pub valid : Bool

-- udp_bind_t; `used` is an int that holds 0 or 1, `len` one that is never negative.
pub record UdpBind : Type 0 where
  pub port : ℕ
  pub buf : List ℕ
  pub len : ℕ
  pub src_ip : ℕ
  pub src_port : ℕ
  pub used : Bool

-- dhcp_state_t. The macros of dhcp.c give DISCOVER, OFFER and REQUEST the enum's own values.
pub data DhcpState : Type 0 where
  idle discover offer request bound failed : DhcpState

-- dns_done: 0, 1 or -1.
pub data DnsDone : Type 0 where
  pending found not_found : DnsDone

-- netd_state_t. `dns_name` and `dhcp_lease_ms` are never read or written by the program.
pub record Net : Type 0 where
  pub fd : ℤ
  pub mac : Mac
  pub mtu : ℕ
  pub link_up : ℤ
  pub ip : ℕ
  pub netmask : ℕ
  pub gateway : ℕ
  pub dns : ℕ
  pub dhcp_state : DhcpState
  pub dhcp_xid : ℕ
  pub dhcp_server : ℕ
  pub arp_cache : List ArpEntry
  pub udp_binds : List UdpBind
  pub ping_id : ℕ
  pub ping_seq : ℕ
  pub ping_reply_ip : ℕ
  pub ping_replied : Bool
  pub dns_txid : ℕ
  pub dns_result : ℕ
  pub dns_done : DnsDone

-- What `memset(.., 0, ..)` and static storage leave.
abbrev pub zero_mac : Mac
zero_mac = record { m0 = 0; m1 = 0; m2 = 0; m3 = 0; m4 = 0; m5 = 0 }

abbrev pub bcast_mac : Mac
bcast_mac = record { m0 = 0xff; m1 = 0xff; m2 = 0xff; m3 = 0xff; m4 = 0xff; m5 = 0xff }

abbrev pub zero_arp_entry : ArpEntry
zero_arp_entry = record { ip = 0; mac = zero_mac; ts = 0; valid = false }

unfoldable pub zero_udp_bind : UdpBind
zero_udp_bind = record {
  port = 0;
  buf = replicate 2048 0;
  len = 0;
  src_ip = 0;
  src_port = 0;
  used = false;
}

-- `netd_state_t g_net;` before `md_main` runs.
unfoldable pub zero_net : Net
zero_net = record {
  fd = pos 0;
  mac = zero_mac;
  mtu = 0;
  link_up = pos 0;
  ip = 0;
  netmask = 0;
  gateway = 0;
  dns = 0;
  dhcp_state = idle;
  dhcp_xid = 0;
  dhcp_server = 0;
  arp_cache = replicate 16 zero_arp_entry;
  udp_binds = replicate 16 zero_udp_bind;
  ping_id = 0;
  ping_seq = 0;
  ping_reply_ip = 0;
  ping_replied = false;
  dns_txid = 0;
  dns_result = 0;
  dns_done = pending;
}
