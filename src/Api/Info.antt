-- ===== src/Api/Info.antt =====
-- NETD_CMD_GET_INFO, NETD_CMD_SET_IP, NETD_CMD_ARP_LOOKUP and NETD_CMD_ARP_FLUSH.
use netd_moduos.Common.{ℕ, List, ◌++◌, Option, none, some, pos, negsuc, ◌==◌, if◌then◌else◌}
use netd_moduos.Wire.Memory.{load32}
use netd_moduos.State.{
  Mac, zero_mac, mac_bytes, Net, M, pure, skip, need, gets, modify, ◌>>=◌, ◌>>◌,
}
use netd_moduos.Arp.{empty_cache, arp_lookup, arp_announce}
use netd_moduos.Dhcp.Client.{dhcp_bound}
use netd_moduos.Api.Reply.{bytes32, unsigned32, Reply, status_only, reply, with_size}

-- netd_info_t.
unfoldable pub info_bytes : Net → List ℕ
info_bytes n =
    mac_bytes n.mac
    ++ (bytes32 n.ip
        ++ (bytes32 n.netmask
            ++ (bytes32 n.gateway
                ++ (bytes32 n.dns
                    ++ (bytes32 n.mtu
                        ++ (bytes32 (unsigned32 n.link_up)
                            ++ bytes32 (if dhcp_bound n then 1 else 0)))))))

unfoldable pub get_info : M Reply
get_info = gets (λ n. reply (pos 0) (info_bytes n))

unfoldable pub set_addresses : ℕ → ℕ → ℕ → ℕ → Net → Net
set_addresses ip netmask gateway dns n = record n {
  ip = ip;
  netmask = netmask;
  gateway = gateway;
  dns = dns;
}

-- The body of NETD_CMD_SET_IP on the four fields of netd_setip_req_t.
unfoldable pub set_ip_to : ℕ → ℕ → ℕ → ℕ → M Reply
set_ip_to ip netmask gateway dns = do
  modify (set_addresses ip netmask gateway dns)
  if ip == 0 then skip else arp_announce
  pure (status_only (pos 0))

unfoldable pub set_ip : List ℕ → M Reply
set_ip req = with_size 16 req (do
  ip ← need (load32 req 4)
  netmask ← need (load32 req 8)
  gateway ← need (load32 req 12)
  dns ← need (load32 req 16)
  set_ip_to ip netmask gateway dns)

-- netd_arp_rep_t for what arp_lookup has found.
unfoldable pub arp_reply : Option Mac → Reply
arp_reply none = reply (negsuc 0) (mac_bytes zero_mac ++ bytes32 0)
arp_reply (some mac) = reply (pos 0) (mac_bytes mac ++ bytes32 1)

unfoldable pub look_up : List ℕ → M Reply
look_up req =
    with_size 4 req (do ip ← need (load32 req 4); found ← arp_lookup ip; pure (arp_reply found))

unfoldable pub arp_flush : M Reply
arp_flush = do modify (λ n. record n { arp_cache = empty_cache }); pure (status_only (pos 0))
