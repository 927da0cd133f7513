-- ===== src/Dns/Resolve.antt =====
-- dns_resolve of dns.c.
use netd_moduos.Common.{
  ℕ, zero, suc, ◌+◌, ◌%◌, ◌^◌, Bool, true, false, ◌||◌, List, Option, none, some, ltb, ◌==◌,
  if◌then◌else◌,
}
use netd_moduos.Wire.Constants.{dns_port}
use netd_moduos.State.{
  DnsDone, pending, found, not_found, Net, M, fault, spin, pure, skip, gets, modify, time_ms,
  ignore, ◌>>=◌, ◌>>◌, and_then,
}
use netd_moduos.Driver.{driver_rx}
use netd_moduos.Udp.Tx.{udp_tx}
use netd_moduos.Dns.Query.{Built, built, too_long, outside, unfinished, dns_build_query}
use netd_moduos.Main.Rx.{on_received}

abbrev pub dns_max_wait_ms : ℕ
dns_max_wait_ms = 3000

abbrev pub is_pending : DnsDone → Bool
is_pending pending = true
is_pending _ = false

-- The loop that pumps the receive path until an answer is noted or the time is up.
unfoldable pub wait_answer : ℕ → ℕ → M (Unit {0})
wait_answer zero deadline = λ s. spin
wait_answer (suc fuel) deadline =
    let again : M (Unit {0}) = wait_answer fuel deadline in
    let round : M (Unit {0}) =
      (driver_rx 1518 >>= on_received)
      >> (gets (λ n. is_pending n.dns_done) >>= λ waiting. if waiting then again else skip) in
    time_ms >>= λ now. if ltb now deadline then round else skip

-- `*ip_out` and the result: `none` is -1.
abbrev pub answer_of : Net → Option ℕ
answer_of n = elim n.dns_done [ found ↦ some n.dns_result | pending ↦ none | not_found ↦ none ]

unfoldable pub await_answer : M (Option ℕ)
await_answer s =
    and_then
      (and_then (time_ms s) (λ now. wait_answer s.os.fuel ((now + dns_max_wait_ms) % 2 ^ 64)))
      (λ _. gets answer_of)

unfoldable pub send_query : ℕ → Built → M (Option ℕ)
send_query server (built query) = ignore (udp_tx server 1053 dns_port query) >> await_answer
send_query server too_long = pure none
send_query server outside = λ s. fault
send_query server unfinished = λ s. spin

-- dns_resolve; the query buffer has 256 bytes, and `name` is what can be read from the string on.
unfoldable pub dns_resolve : List ℕ → M (Option ℕ)
dns_resolve name = do
  server ← gets (λ n. n.dns)
  own ← gets (λ n. n.ip)
  if (server == 0) || (own == 0) then pure none else (do
    now ← time_ms
    modify (λ n. record n { dns_txid = now % 2 ^ 16; dns_done = pending; dns_result = 0 })
    send_query server (dns_build_query 256 (now % 2 ^ 16) name))
