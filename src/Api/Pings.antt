-- ===== src/Api/Pings.antt =====
-- What NETD_CMD_PING answers.
use netd_moduos.Common.{
  ℕ, zero, suc, ◌+◌, ◌%◌, ◌^◌, ◌≤◌, ◌<◌, ◌≡◌, refl, ap, sym, subst, ◌∙◌, Bool, true, false, List,
  ltb, if◌then◌else◌, length, arith, All, Bool-cases, inl, inr, le→not-ltb, negsuc, replicate,
}
use netd_moduos.Wire.Cksum.Laws.{IsByte}
use netd_moduos.Wire.Loads.{word16, word32, load16_inside, load32_inside}
use netd_moduos.State.{Sys, done, M, skip, modify, pure, ◌>>◌, and_then}
use netd_moduos.Live.Rules.{Later}
use netd_moduos.Arp.Lookup.{ticked, now_of}
use netd_moduos.Ip.Tx.Laws.Total.{after, ip_tx-returns}
use netd_moduos.Icmp.{icmp_ping, echo_request}
use netd_moduos.Dhcp.Client.{or_default}
use netd_moduos.Api.Reply.{reply, with_size}
use netd_moduos.Api.Ping.{
  PingReply, no_reply, wait_reply, take_reply, ping_once, ping_rounds, ping_reply, ping,
}
use netd_moduos.Live.Waits.{IsLive, Past, not-Past}
use netd_moduos.Live.Daemon.{Past-deadline, has_fuel}
use netd_moduos.Live.Requests.{load16-lt}

-- What runs meanwhile comes to an end and notes no reply.
abbrev pub Quiet : ℕ → M (Unit {0}) → Type 0
Quiet lag yield =
    (s : Sys)
    → IsLive lag s.os.oracle
    → s.net.ping_replied ≡ false
    → (t : Sys) × (yield s ≡ done tt t) × Later s t × (t.net.ping_replied ≡ false)

-- While no reply is noted the wait ends at its deadline.
wait_reply-done :
    (lag last deadline : ℕ) (yield : M (Unit {0})) (fuel : ℕ) (s : Sys)
    → Quiet lag yield
    → 0 < fuel
    → last < fuel + s.os.clock_calls
    → IsLive lag s.os.oracle
    → Past last deadline s.os.oracle
    → s.net.ping_replied ≡ false
    → (t : Sys) × (wait_reply yield fuel deadline s ≡ done tt t)
      × (t.os.oracle ≡ s.os.oracle)
      × (t.net.ping_replied ≡ false)
unfolding wait_reply
wait_reply-done lag last deadline yield zero s quiet some' h live past no_reply' =
    absurd (omega arith)
wait_reply-done lag last deadline yield (suc fuel) s quiet some' h live past no_reply' =
    elim (Bool-cases (ltb (now_of s) deadline)) [
      | inr late ↦ (ticked s, rw (wait_reply, late) refl, refl, no_reply')
      | inl early ↦
          let before : s.os.clock_calls < last = not-Past last deadline s early past in
          let (t, yielded, later, still) = quiet (ticked s) live no_reply' in
          let (u, e, same, none') =
            wait_reply-done lag last deadline yield fuel t quiet (omega arith)
              (omega (arith, later.clock_on)) (subst (IsLive lag) (sym later.same_oracle) live)
              (subst (Past last deadline) (sym later.same_oracle) past) still in
          (
            u,
            rw (wait_reply, early)
                (ap
                    (λ (b : Bool).
                      (if b then skip else yield >> wait_reply yield fuel deadline) (ticked s))
                    no_reply'
                  ∙ ap (λ o. and_then o (λ _. wait_reply yield fuel deadline)) yielded
                  ∙ e),
            same ∙ later.same_oracle,
            none',
          )
    ]

pub length-echo_request : (id seq : ℕ) → length (echo_request id seq) ≡ 16
unfolding echo_request
length-echo_request id seq = refl

-- The end of a round.
abbrev if_noted : PingReply → Bool → M PingReply
if_noted rep replied s =
    (if replied
        then modify (λ n. record n { ping_replied = false })
          >> pure (record { replied = true; reply_ip = s.net.ping_reply_ip })
        else pure rep)
      s

abbrev Unanswered : PingReply → M PingReply → Sys → Type 0
Unanswered rep m s = (s' : Sys) × (m s ≡ done rep s') × (s'.os.oracle ≡ s.os.oracle)

module _ (lag : ℕ) (yield : M (Unit {0})) (quiet : Quiet lag yield) where
  ping_once-Unanswered :
      (ip id seq timeout : ℕ) (rep : PingReply) (s : Sys)
      → IsLive lag s.os.oracle
      → timeout < 2 ^ 16
      → Unanswered rep (ping_once yield ip id seq timeout rep) s
  unfolding ping_once icmp_ping take_reply
  ping_once-Unanswered ip id seq timeout rep s live small =
      let s1 = record s {
        net = record (s.net) { ping_id = id; ping_seq = seq; ping_replied = false };
      } in
      let (status, t, sent) =
        ip_tx-returns lag ip 1 (echo_request id seq) s1 live.prompt
          (omega (arith, length-echo_request id seq)) in
      let s2 = after t s1 in
      let (u, waited, same, none') =
        wait_reply-done lag (s2.os.clock_calls + s.os.fuel) ((now_of s2 + timeout) % 2 ^ 64) yield
          s.os.fuel (ticked s2) quiet (has_fuel lag s live) (omega arith) live
          (Past-deadline lag s2 timeout small live) refl in
      (u, rw (sent, waited) (ap (λ (b : Bool). if_noted rep b u) none'), same)

  ping_rounds-Unanswered :
      (left ip id seq timeout : ℕ) (rep : PingReply) (s : Sys)
      → IsLive lag s.os.oracle
      → timeout < 2 ^ 16
      → Unanswered rep (ping_rounds yield left ip id seq timeout rep) s
  unfolding ping_rounds
  ping_rounds-Unanswered zero ip id seq timeout rep s live small = (s, refl, refl)
  ping_rounds-Unanswered (suc left) ip id seq timeout rep s live small =
      let (s1, e1, same1) = ping_once-Unanswered ip id (seq % 2 ^ 16) timeout rep s live small in
      let (s2, e2, same2) =
        ping_rounds-Unanswered left ip id (seq + 1) timeout rep s1
          (subst (IsLive lag) (sym same1) live) small in
      (s2, rw (e1) e2, same2 ∙ same1)

-- On a kernel whose device answers and whose clock goes on, every ping request of bytes that has
-- its fields ends with the status -1 and eight zero bytes, in every state, if what the kernel runs
-- at each `yield` of the waits returns and notes no reply: a wait receives nothing itself.
pub ping-unanswered :
    (lag : ℕ) (yield : M (Unit {0})) (req : List ℕ) (s : Sys)
    → Quiet lag yield
    → IsLive lag s.os.oracle
    → All IsByte req
    → 12 ≤ length req
    → (s' : Sys) × (ping yield req s ≡ done (reply (negsuc 0) (replicate 8 0)) s')
unfolding ping ping_reply with_size
ping-unanswered lag yield req s quiet live bytes long =
    let timeout = or_default (word16 req 10) 2000 in
    let loaded = load16_inside req 10 (omega arith) in
    let small : timeout < 2 ^ 16 = ground (arith, load16-lt req 10 (word16 req 10) bytes loaded) in
    let (s', e, _) =
      ping_rounds-Unanswered lag yield quiet (or_default (word16 req 8) 1) (word32 req 4)
        (now_of s % 2 ^ 16) 1 timeout no_reply (ticked s) live small in
    (
      s',
      rw
          (
            le→not-ltb (length req) 12 long,
            load32_inside req 4 (omega arith),
            load16_inside req 8 (omega arith),
            loaded,
            e,
          )
          refl,
    )
