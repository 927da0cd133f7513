-- ===== src/Api/Invoke.antt =====
-- api_invoke.
use netd_moduos.Common.{ℕ, List, Option, none, some, negsuc, ltb, ◌==◌, if◌then◌else◌, length}
use netd_moduos.Wire.Memory.{load32}
use netd_moduos.State.{M, pure, need, ◌>>=◌}
use netd_moduos.Api.Reply.{Reply, status_only, reply_bytes}
use netd_moduos.Api.Info.{get_info, set_ip, look_up, arp_flush}
use netd_moduos.Api.Ping.{ping}
use netd_moduos.Api.Ports.{bind_port, unbind_port, send, receive}
use netd_moduos.Api.Names.{resolve_name}

-- The API command codes.
pub data Command : Type 0 where
  cmd_get_info cmd_ping cmd_udp_send cmd_udp_recv cmd_udp_bind cmd_udp_unbind : Command
  cmd_dns_resolve cmd_arp_lookup cmd_arp_flush cmd_set_ip cmd_unknown : Command

unfoldable pub decode : ℕ → Command
decode c =
    if c == 1
    then cmd_get_info
    else if c == 2
    then cmd_ping
    else if c == 3
    then cmd_udp_send
    else if c == 4
    then cmd_udp_recv
    else if c == 5
    then cmd_udp_bind
    else if c == 6
    then cmd_udp_unbind
    else if c == 7
    then cmd_dns_resolve
    else if c == 8
    then cmd_arp_lookup
    else if c == 9
    then cmd_arp_flush
    else if c == 10
    then cmd_set_ip
    else cmd_unknown

-- `switch (hdr->cmd)`; `yield` is what the kernel runs while a ping waits.
unfoldable pub handle : M (Unit {0}) → Command → List ℕ → M Reply
handle yield cmd_get_info req = get_info
handle yield cmd_ping req = ping yield req
handle yield cmd_udp_send req = send req
handle yield cmd_udp_recv req = receive req
handle yield cmd_udp_bind req = bind_port req
handle yield cmd_udp_unbind req = unbind_port req
handle yield cmd_dns_resolve req = resolve_name req
handle yield cmd_arp_lookup req = look_up req
handle yield cmd_arp_flush req = arp_flush
handle yield cmd_set_ip req = set_ip req
handle yield cmd_unknown req = pure (status_only (negsuc 98))

-- api_invoke; `none` is its -1, else the bytes that are stored to `out_buf`, whose number is the
-- result.
unfoldable pub api_invoke : M (Unit {0}) → List ℕ → ℕ → M (Option (List ℕ))
api_invoke yield req out_size = if ltb (length req) 4 then pure none else (do
  cmd ← need (load32 req 0)
  rep ← handle yield (decode cmd) req
  pure (some (reply_bytes out_size rep)))
