-- ===== src/Udp/Rx.antt =====
-- udp_rx of udp.c.
use netd_moduos.Common.{ℕ, ◌-◌, List, ltb, leb, ◌==◌, if◌then◌else◌, drop}
use netd_moduos.Wire.Constants.{dhcp_port_client, dns_port}
use netd_moduos.Wire.Endian.{ntohs}
use netd_moduos.Wire.Memory.{load16}
use netd_moduos.State.{M, skip, need, gets, modify, ◌>>=◌}
use netd_moduos.Udp.Table.{deliver}
use netd_moduos.Dhcp.Client.{dhcp_rx}
use netd_moduos.Dns.Rx.{dns_rx}

-- The delivery to a bound port.
unfoldable pub deliver_to : ℕ → ℕ → ℕ → List ℕ → ℕ → M (Unit {0})
deliver_to dst_port src_ip src_port payload len = do
  bs ← gets (λ n. n.udp_binds)
  bs' ← need (deliver dst_port src_ip src_port payload len bs)
  modify (λ n. record n { udp_binds = bs' })

-- Datagrams for the DHCP client and from a DNS server go there, whatever is bound.
unfoldable pub route : ℕ → ℕ → ℕ → List ℕ → ℕ → M (Unit {0})
route src_ip src_port dst_port payload len =
    if dst_port == dhcp_port_client
    then dhcp_rx src_ip payload len
    else if src_port == dns_port
    then dns_rx payload len
    else deliver_to dst_port src_ip src_port payload len

-- udp_rx; `data'` is what can be read from `data` on, and `len` what the packet claims.
unfoldable pub udp_rx : ℕ → List ℕ → ℕ → M (Unit {0})
udp_rx src_ip data' len = if ltb len 8 then skip else (do
  src_port ← need (load16 data' 0)
  dst_port ← need (load16 data' 2)
  udp_len ← need (load16 data' 4)
  if leb (ntohs udp_len) 8
      then skip
      else route src_ip (ntohs src_port) (ntohs dst_port) (drop 8 data') (ntohs udp_len - 8))
