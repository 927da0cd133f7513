-- ===== src/Live/Daemon.antt =====
-- dns_resolve, md_main and api_invoke, on a kernel whose device answers and whose clock goes on.
use netd_moduos.Common.{
  ℕ, zero, suc, ◌+◌, ◌%◌, ◌^◌, ◌<◌, ◌≢◌, refl, Bool, true, false, List, Option, none, some, arith,
}
use netd_moduos.State.{UdpBind, Sys, pure, modify, ◌>>◌}
use netd_moduos.Driver.{driver_open, driver_transact}
use netd_moduos.Udp.Tx.{udp_tx}
use netd_moduos.Arp.{arp_init, arp_announce}
use netd_moduos.Arp.Lookup.{ticked, now_of}
use netd_moduos.Udp.Table.{bind, udp_bind}
use netd_moduos.Dhcp.Client.{dhcp_send, dhcp_start}
use netd_moduos.Dns.Query.{Built, built, too_long, outside, unfinished, dns_build_query}
use netd_moduos.Dns.Query.Ends.{dns_build_query_ends}
use netd_moduos.Dns.Resolve.{wait_answer, await_answer, send_query, dns_resolve}
use netd_moduos.Main.Start.{
  dhcp_timeout_ms, read_mac, read_val, read_mtu_and_link, clear_tables, wait_for_lease, configure,
  start_with, start_opened, start, serve,
}
use netd_moduos.Live.Rules.{
  Later, Later-refl, Finishes-Later, Finishes-seq, Ends, Ends-bind, Ends-gets, Ends-crash,
  ends_rules,
}
use netd_moduos.Live.Send.{driver_transact-Ends, arp_announce-Ends, udp_tx-Ends}
use netd_moduos.Live.Receive.{dhcp_send-Ends}
use netd_moduos.Live.Loops.{rx_once-Ends}
use netd_moduos.Live.Waits.{IsLive, live-IsPrompt, Past, wait_bound-Finishes, wait_answer-Finishes}

module _ (lag : ℕ) where
  transacts :
      (cmd : ℕ) (payload : List ℕ) (want : Option ℕ)
      → Ends (IsLive lag) (driver_transact cmd payload want)
  transacts = driver_transact-Ends lag (live-IsPrompt lag)

  pub sends_udp :
      (dst src_port dst_port : ℕ) (xs : List ℕ)
      → Ends (IsLive lag) (udp_tx dst src_port dst_port xs)
  sends_udp = udp_tx-Ends lag (live-IsPrompt lag)

  sends_dhcp :
      (msg_type req_ip server_id : ℕ) → Ends (IsLive lag) (dhcp_send msg_type req_ip server_id)
  sends_dhcp = dhcp_send-Ends lag (live-IsPrompt lag)

  pub announces : Ends (IsLive lag) arp_announce
  announces = arp_announce-Ends lag (live-IsPrompt lag)

  -- A deadline that is set at the present reading has passed after as many readings as there is fuel.
  pub Past-deadline :
      (s : Sys) (t : ℕ)
      → t < 2 ^ 16
      → IsLive lag s.os.oracle
      → Past (s.os.clock_calls + s.os.fuel) ((now_of s + t) % 2 ^ 64) s.os.oracle
  Past-deadline s t small live j h = live.ticking.passes s.os.clock_calls t j small h

  pub has_fuel : (s : Sys) → IsLive lag s.os.oracle → 0 < s.os.fuel
  has_fuel s live = omega (arith, live.prompt.enough)

  pub Later-now : (s : Sys) → Later s (ticked s)
  Later-now s = record { same_oracle = refl; clock_on = omega arith }

  await_answer-Ends : Ends (IsLive lag) await_answer
  unfolding await_answer
  await_answer-Ends = record {
    at = λ s live. Finishes-Later s (ticked s) _ (Later-now s) (
        Finishes-seq (ticked s) (wait_answer s.os.fuel ((now_of s + 3000) % 2 ^ 64) (ticked s)) _
          (wait_answer-Finishes lag (s.os.clock_calls + s.os.fuel) ((now_of s + 3000) % 2 ^ 64)
            s.os.fuel (ticked s) (has_fuel s live) (omega arith) live
            (Past-deadline s 3000 (omega arith) live))
          λ _ t _. Later-refl t);
  }

  send_query-Ends :
      (server : ℕ) (b : Built) → b ≢ unfinished → Ends (IsLive lag) (send_query server b)
  unfolding send_query
  send_query-Ends server (built query) h = search (ends_rules, sends_udp, await_answer-Ends)
  send_query-Ends server too_long h = search ends_rules
  send_query-Ends server outside h = Ends-crash (IsLive lag)
  send_query-Ends server unfinished h = absurd (h refl)

  ask-Ends :
      (server txid : ℕ) (name : List ℕ)
      → Ends (IsLive lag) (send_query server (dns_build_query 256 txid name))
  ask-Ends server txid name = send_query-Ends server _ (dns_build_query_ends 256 txid name)

  -- dns_resolve comes to an end, whatever is received while it waits.
  pub dns_resolve-Ends : (name : List ℕ) → Ends (IsLive lag) (dns_resolve name)
  unfolding dns_resolve
  dns_resolve-Ends name = search (ends_rules, ask-Ends) depth 9

  pub wait_for_lease-Ends : Ends (IsLive lag) wait_for_lease
  unfolding wait_for_lease
  wait_for_lease-Ends = record {
    at = λ s live. Finishes-Later s (ticked s) _ (Later-now s) (
        wait_bound-Finishes lag (s.os.clock_calls + s.os.fuel)
          ((now_of s + dhcp_timeout_ms) % 2 ^ 64) s.os.fuel (ticked s) (has_fuel s live)
          (omega arith) live (Past-deadline s dhcp_timeout_ms (omega arith) live));
  }

  pub driver_open-Ends : Ends (IsLive lag) driver_open
  unfolding driver_open
  driver_open-Ends = record { at = λ s _. record { same_oracle = refl; clock_on = omega arith } }

  read_val-Ends : (cmd : ℕ) → Ends (IsLive lag) (read_val cmd)
  unfolding read_val
  read_val-Ends cmd = search (ends_rules, transacts)

  pub read_mac-Ends : Ends (IsLive lag) read_mac
  unfolding read_mac
  read_mac-Ends = search (ends_rules, transacts) depth 9

  pub read_mtu_and_link-Ends : Ends (IsLive lag) read_mtu_and_link
  unfolding read_mtu_and_link
  read_mtu_and_link-Ends = search (ends_rules, read_val-Ends) depth 9

  pub clear_tables-Ends : Ends (IsLive lag) clear_tables
  unfolding clear_tables arp_init
  clear_tables-Ends = search ends_rules

  pub udp_bind-Ends : (port : ℕ) → Ends (IsLive lag) (udp_bind port)
  unfolding udp_bind
  udp_bind-Ends port =
      Ends-bind (IsLive lag) _ _ (Ends-gets (IsLive lag) (λ n. n.udp_binds))
        λ bs. store (bind port bs)
    where
      store :
          (b : Option (List UdpBind))
          → Ends (IsLive lag) {A = Bool} (elim b [
            | none ↦ pure false
            | some bs' ↦ (modify (λ n. record n { udp_binds = bs' }) >> pure true)
          ])
      store none = search ends_rules
      store (some bs') = search ends_rules

  pub dhcp_start-Ends : Ends (IsLive lag) dhcp_start
  unfolding dhcp_start
  dhcp_start-Ends = search (ends_rules, udp_bind-Ends, sends_dhcp) depth 9

  configure-Ends : Ends (IsLive lag) configure
  unfolding configure
  configure-Ends = search (ends_rules, dhcp_start-Ends, wait_for_lease-Ends, announces) depth 9

  start_with-Ends : (go_on : Bool) → Ends (IsLive lag) (start_with go_on)
  unfolding start_with
  start_with-Ends false = search ends_rules
  start_with-Ends true =
      search (ends_rules, read_mtu_and_link-Ends, clear_tables-Ends, configure-Ends) depth 9

  start_opened-Ends : (go_on : Bool) → Ends (IsLive lag) (start_opened go_on)
  unfolding start_opened
  start_opened-Ends false = search ends_rules
  start_opened-Ends true = search (ends_rules, read_mac-Ends, start_with-Ends)

  -- The start of the daemon comes to an end, with a lease or without one.
  pub start-Ends : Ends (IsLive lag) start
  unfolding start
  start-Ends = search (ends_rules, driver_open-Ends, start_opened-Ends)

  -- So does each number of rounds of its loop.
  pub serve-Ends : (rounds : ℕ) → Ends (IsLive lag) (serve rounds)
  unfolding serve
  serve-Ends zero = search ends_rules
  serve-Ends (suc rounds) =
      Ends-bind (IsLive lag) _ _ (rx_once-Ends lag (live-IsPrompt lag)) λ _. serve-Ends rounds
