-- ===== src/Wire/Constants.antt =====
-- The wire constants of netd.h. C chains of `<<` and `|` on bytes are in `make_ip`.
use netd_moduos.Common.{ℕ, ◌*◌, ◌^◌, bit_or}

abbrev pub ethertype_arp : ℕ
ethertype_arp = 0x0806

abbrev pub ethertype_ip : ℕ
ethertype_ip = 0x0800

abbrev pub ipproto_icmp : ℕ
ipproto_icmp = 1

abbrev pub ipproto_udp : ℕ
ipproto_udp = 17

abbrev pub arp_op_request : ℕ
arp_op_request = 1

abbrev pub arp_op_reply : ℕ
arp_op_reply = 2

abbrev pub icmp_echo_req : ℕ
icmp_echo_req = 8

abbrev pub icmp_echo_rep : ℕ
icmp_echo_rep = 0

abbrev pub dhcp_port_server : ℕ
dhcp_port_server = 67

abbrev pub dhcp_port_client : ℕ
dhcp_port_client = 68

abbrev pub dns_port : ℕ
dns_port = 53

abbrev pub net_cmd_get_link_up : ℕ
net_cmd_get_link_up = 2

abbrev pub net_cmd_get_mtu : ℕ
net_cmd_get_mtu = 3

abbrev pub net_cmd_get_mac : ℕ
net_cmd_get_mac = 4

abbrev pub net_cmd_tx_frame : ℕ
net_cmd_tx_frame = 5

abbrev pub net_cmd_rx_poll : ℕ
net_cmd_rx_poll = 6

abbrev pub ip_bcast : ℕ
ip_bcast = 0xffff_ffff

abbrev pub arp_cache_size : ℕ
arp_cache_size = 16

abbrev pub arp_timeout_ms : ℕ
arp_timeout_ms = 30000

abbrev pub udp_max_binds : ℕ
udp_max_binds = 16

abbrev pub udp_rxbuf_size : ℕ
udp_rxbuf_size = 2048

-- MAKE_IP.
abbrev pub make_ip : ℕ → ℕ → ℕ → ℕ → ℕ
make_ip a b c d = bit_or (bit_or (bit_or (a * 2 ^ 24) (b * 2 ^ 16)) (c * 2 ^ 8)) d
