-- ===== src/Api/Ports.antt =====
-- NETD_CMD_UDP_BIND, NETD_CMD_UDP_UNBIND, NETD_CMD_UDP_SEND and NETD_CMD_UDP_RECV.
use netd_moduos.Common.{
  ℕ, ◌-◌, List, ◌++◌, Option, none, some, pos, negsuc, ltb, if◌then◌else◌, length, drop, replicate,
}
use netd_moduos.Wire.Memory.{load16, load32, bytes?}
use netd_moduos.State.{M, pure, crash, need, ◌>>=◌, ◌>>◌}
use netd_moduos.Udp.Table.{Datagram, udp_bind, udp_unbind, udp_recv}
use netd_moduos.Udp.Tx.{udp_tx}
use netd_moduos.Dhcp.Client.{or_default}
use netd_moduos.Api.Reply.{bytes16, bytes32, Reply, status_only, reply, with_size}

unfoldable pub bind_port : List ℕ → M Reply
bind_port req = with_size 2 req (do
  port ← need (load16 req 4)
  ok ← udp_bind port
  pure (status_only (if ok then pos 0 else negsuc 0)))

unfoldable pub unbind_port : List ℕ → M Reply
unbind_port req =
    with_size 2 req (do port ← need (load16 req 4); udp_unbind port; pure (status_only (pos 0)))

-- The call of udp_tx. It refuses a `len` over 1472 before it reads the data.
unfoldable pub send_data : ℕ → ℕ → ℕ → ℕ → List ℕ → M Reply
send_data dst_ip src_port dst_port len data' =
    if ltb 1472 len then pure (status_only (negsuc 0)) else (do
      bytes ← need (bytes? data' len)
      status ← udp_tx dst_ip src_port dst_port bytes
      pure (status_only status))

unfoldable pub send : List ℕ → M Reply
send req = with_size 1482 req (do
  dst_ip ← need (load32 req 4)
  src_port ← need (load16 req 8)
  dst_port ← need (load16 req 10)
  len ← need (load16 req 12)
  send_data dst_ip src_port dst_port len (drop 14 req))

-- netd_udp_recv_rep_t; its `data` has 1472 bytes, which udp_recv must not overrun.
unfoldable pub recv_reply : Option Datagram → M Reply
recv_reply none =
    pure (reply (negsuc 0) (bytes32 0 ++ (bytes16 0 ++ (bytes16 0 ++ replicate 1472 0))))
recv_reply (some d) =
    if ltb 1472 (length d.bytes)
    then crash
    else pure (
        reply (if ltb 0 (length d.bytes) then pos 0 else negsuc 0) (
          bytes32 d.src_ip
          ++ (bytes16 d.src_port
              ++ (bytes16 (length d.bytes) ++ (d.bytes ++ replicate (1472 - length d.bytes) 0)))))

unfoldable pub receive : List ℕ → M Reply
receive req = with_size 4 req (do
  port ← need (load16 req 4)
  max_len ← need (load16 req 6)
  got ← udp_recv port (or_default max_len 1472)
  recv_reply got)
