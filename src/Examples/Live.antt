-- ===== src/Examples/Live.antt =====
-- Runs that come to an end, and the requests of api.c.
use netd_moduos.Common.{
  ℕ, ◌≡◌, ◌≢◌, refl, List, [], ◌∷◌, some, pos, All, take, arith, negsuc, replicate,
}
use netd_moduos.Wire.Memory.{load32}
use netd_moduos.Wire.Cksum.Laws.{IsByte}
use netd_moduos.State.{Sys, skip, done, spin, bcast_mac, ◌>>=◌}
use netd_moduos.Driver.Transmit.{transmitted}
use netd_moduos.Arp.{arp_frame}
use netd_moduos.Dhcp.Client.React.{with_net}
use netd_moduos.Dns.Resolve.{dns_resolve}
use netd_moduos.Main.Start.{start, serve}
use netd_moduos.Api.Reply.{reply}
use netd_moduos.Api.Info.{info_bytes, get_info, set_ip_to}
use netd_moduos.Api.Ping.{ping}
use netd_moduos.Api.Invoke.{decode, api_invoke}
use netd_moduos.Api.Bounds.{Answers}
use netd_moduos.Api.Short.{api_invoke_short}
use netd_moduos.Api.Settings.{get_info-set_ip_to}
use netd_moduos.Api.Pings.{Quiet, ping-unanswered}
use netd_moduos.Live.Rules.{Ends-pure, Later-refl}
use netd_moduos.Live.Waits.{IsLive}
use netd_moduos.Live.Ends.{Terminates, dns_resolve_ends, start-serve_ends, api_invoke_ends}
use netd_moduos.Examples.World.{oracle-IsPrompt, ticking-IsLive, mac_a, ip_b, machine_a, live_a}

dns_resolve_ends_example : dns_resolve (b'a' ∷ 0 ∷ []) live_a ≢ spin
dns_resolve_ends_example = dns_resolve_ends 0 (b'a' ∷ 0 ∷ []) live_a ticking-IsLive

start-serve_ends_example : (start live_a ≢ spin) × (serve 3 live_a ≢ spin)
start-serve_ends_example = start-serve_ends 0 3 live_a ticking-IsLive

-- NETD_CMD_PING for 10.0.2.16, three times 100 ms.
abbrev ping_request : List ℕ
ping_request = 2 ∷ 0 ∷ 0 ∷ 0 ∷ 16 ∷ 2 ∷ 0 ∷ 10 ∷ 3 ∷ 0 ∷ 100 ∷ 0 ∷ []

ping_request-IsByte : All IsByte ping_request
ping_request-IsByte = ground arith

-- A kernel that runs nothing else while a ping waits.
skip-Terminates : Terminates 0 skip
skip-Terminates = Ends-pure (IsLive 0) tt

skip-Quiet : Quiet 0 skip
skip-Quiet s live none' = (s, refl, Later-refl s, none')

api_invoke_ends_example :
    (api_invoke skip ping_request 64 live_a ≢ spin)
    × Answers 64 (api_invoke skip ping_request 64 live_a)
api_invoke_ends_example =
    api_invoke_ends 0 skip ping_request 64 live_a skip-Terminates ticking-IsLive ping_request-IsByte

ping-unanswered_example :
    (s' : Sys) × (ping skip ping_request live_a ≡ done (reply (negsuc 0) (replicate 8 0)) s')
ping-unanswered_example =
    ping-unanswered 0 skip ping_request live_a skip-Quiet ticking-IsLive ping_request-IsByte
      (omega arith)

-- A ping without its fields.
abbrev short_request : List ℕ
short_request = 2 ∷ 0 ∷ 0 ∷ 0 ∷ 16 ∷ []

loads_command : load32 short_request 0 ≡ some 2
unfolding load32
loads_command = refl

api_invoke_short_example :
    api_invoke skip short_request 64 machine_a
    ≡ done (some (take 64 (255 ∷ 255 ∷ 255 ∷ 255 ∷ 0 ∷ 0 ∷ 0 ∷ 0 ∷ []))) machine_a
unfolding decode
api_invoke_short_example =
    api_invoke_short skip 2 short_request 64 machine_a loads_command (omega arith) (omega arith)

get_info-set_ip_to_example :
    let n = record machine_a.net { ip = ip_b; netmask = 0xffff_0000; gateway = 7; dns = 8 } in
    (k : ℕ) × ((set_ip_to ip_b 0xffff_0000 7 8 >>= λ _. get_info) machine_a
      ≡ done
          (reply (pos 0) (info_bytes n))
          (transmitted (arp_frame mac_a 1 bcast_mac ip_b ip_b) k (with_net n machine_a)))
get_info-set_ip_to_example =
    get_info-set_ip_to 0 ip_b 0xffff_0000 7 8 machine_a oracle-IsPrompt (ground arith)
