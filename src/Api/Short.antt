-- ===== src/Api/Short.antt =====
-- Requests that are too short.
use netd_moduos.Common.{
  ℕ, ◌+◌, ◌<◌, ◌≤◌, ◌≡◌, refl, List, [], ◌∷◌, take, some, negsuc, length, lt→ltb, le→not-ltb, arith,
}
use netd_moduos.Wire.Memory.{load32}
use netd_moduos.State.{Sys, done, M}
use netd_moduos.Api.Reply.{Reply, status_only, reply_bytes, with_size}
use netd_moduos.Api.Info.{set_ip, look_up}
use netd_moduos.Api.Ping.{ping}
use netd_moduos.Api.Ports.{bind_port, unbind_port, send, receive}
use netd_moduos.Api.Names.{resolve_name}
use netd_moduos.Api.Invoke.{
  Command, cmd_get_info, cmd_ping, cmd_udp_send, cmd_udp_recv, cmd_udp_bind, cmd_udp_unbind,
  cmd_dns_resolve, cmd_arp_lookup, cmd_arp_flush, cmd_set_ip, cmd_unknown, decode, handle,
  api_invoke,
}

-- The bytes of a command's request structure.
abbrev pub request_size : Command → ℕ
request_size cmd_get_info = 0
request_size cmd_ping = 8
request_size cmd_udp_send = 1482
request_size cmd_udp_recv = 4
request_size cmd_udp_bind = 2
request_size cmd_udp_unbind = 2
request_size cmd_dns_resolve = 256
request_size cmd_arp_lookup = 4
request_size cmd_arp_flush = 0
request_size cmd_set_ip = 16
request_size cmd_unknown = 0

with_size_short :
    (size : ℕ) (req : List ℕ) (m : M Reply) (s : Sys)
    → length req < 4 + size
    → with_size size req m s ≡ done (status_only (negsuc 0)) s
unfolding with_size
with_size_short size req m s short = rw (lt→ltb (length req) (4 + size) short) refl

handle_short :
    (yield : M (Unit {0})) (c : Command) (req : List ℕ) (s : Sys)
    → 4 ≤ length req
    → length req < 4 + request_size c
    → handle yield c req s ≡ done (status_only (negsuc 0)) s
unfolding handle ping send receive bind_port unbind_port resolve_name look_up set_ip
handle_short yield cmd_get_info req s long short = absurd (omega arith)
handle_short yield cmd_ping req s long short = with_size_short 8 req _ s short
handle_short yield cmd_udp_send req s long short = with_size_short 1482 req _ s short
handle_short yield cmd_udp_recv req s long short = with_size_short 4 req _ s short
handle_short yield cmd_udp_bind req s long short = with_size_short 2 req _ s short
handle_short yield cmd_udp_unbind req s long short = with_size_short 2 req _ s short
handle_short yield cmd_dns_resolve req s long short = with_size_short 256 req _ s short
handle_short yield cmd_arp_lookup req s long short = with_size_short 4 req _ s short
handle_short yield cmd_arp_flush req s long short = absurd (omega arith)
handle_short yield cmd_set_ip req s long short = with_size_short 16 req _ s short
handle_short yield cmd_unknown req s long short = absurd (omega arith)

-- A request that has its command but not all bytes of the command's structure is answered with the
-- status -1 and the length 0, as far as the caller's buffer goes, and changes nothing.
pub api_invoke_short :
    (yield : M (Unit {0})) (cmd : ℕ) (req : List ℕ) (out_size : ℕ) (s : Sys)
    → load32 req 0 ≡ some cmd
    → 4 ≤ length req
    → length req < 4 + request_size (decode cmd)
    → api_invoke yield req out_size s
      ≡ done (some (take out_size (255 ∷ 255 ∷ 255 ∷ 255 ∷ 0 ∷ 0 ∷ 0 ∷ 0 ∷ []))) s
unfolding api_invoke reply_bytes
api_invoke_short yield cmd req out_size s loaded long short =
    rw
      (
        le→not-ltb (length req) 4 long,
        api_invoke,
        loaded,
        handle_short yield (decode cmd) req s long short,
      )
      refl
