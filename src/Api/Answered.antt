-- ===== src/Api/Answered.antt =====
-- NETD_CMD_PING where the loop of md_main runs while it waits.
use netd_moduos.Common.{
  ℕ, zero, suc, ◌+◌, ◌%◌, ◌^◌, ◌≤◌, ◌<◌, ◌≡◌, refl, ap, ◌∙◌, Bool, true, false, ◌&&◌, List, ◌++◌,
  ltb, ◌==◌, ==-refl, lt→ltb, if◌then◌else◌, length, arith, Bool-cases, inl, inr, le→not-ltb, pos,
}
use netd_moduos.Wire.Constants.{ipproto_icmp}
use netd_moduos.Wire.Loads.{word16, word32, load16_inside, load32_inside}
use netd_moduos.State.{Sys, M, done, skip, got, and_then, ◌>>◌}
use netd_moduos.State.{Mac}
use netd_moduos.Driver.Reply.{IsPrompt}
use netd_moduos.Driver.Deliver.{device_reply, polled}
use netd_moduos.Arp.{learn}
use netd_moduos.Arp.Lookup.{ticked, now_of, with_cache}
use netd_moduos.Ip.Tx.Laws.Send.{ip_frame}
use netd_moduos.Ip.Tx.Laws.Total.{after, ip_tx-returns}
use netd_moduos.Ip.Rx.{dispatch, not_for_us}
use netd_moduos.Ip.Rx.Delivery.{ip_rx-headers}
use netd_moduos.Icmp.{icmp_ping, icmp_rx, echo_request, echo_reply}
use netd_moduos.Icmp.Laws.{noted, ping_exchange}
use netd_moduos.Main.Rx.{rx_once}
use netd_moduos.Main.Rx.Arrivals.{rx_once-ip_frame}
use netd_moduos.Dhcp.Client.{or_default}
use netd_moduos.Api.Reply.{bytes32, reply, with_size}
use netd_moduos.Api.Pings.{length-echo_request}
use netd_moduos.Api.Ping.{
  no_reply, wait_reply, take_reply, ping_once, ping_rounds, ping_reply, ping,
}

-- The frame of `target` with the answer to the first request of a ping.
abbrev pub answer_frame : Mac → ℕ → ℕ → Sys → List ℕ
answer_frame mac dst id target =
    ip_frame mac dst ipproto_icmp (echo_reply (echo_request id 1)) target

-- The kernel takes every write, and its device replies to every read with `frame` in one piece.
abbrev pub Gives : List ℕ → List ℕ → Sys → Type 0
Gives head frame t =
    ((i : ℕ) → t.os.writes i ≡ true)
    × ((i size : ℕ) → t.os.reads i size ≡ got (device_reply head frame))

length-answer : (id : ℕ) → length (echo_reply (echo_request id 1)) ≡ 16
unfolding echo_request echo_reply
length-answer id = refl

-- The machine after the poll that receives the answer.
abbrev heard_answer : Sys → Sys → Sys
heard_answer target t =
    ticked (with_cache (learn target.net.ip target.net.mac (now_of t) t.net.arp_cache) (polled t))

rx_once-answer :
    (lag : ℕ) (mac : Mac) (dst id : ℕ) (head : List ℕ) (target t : Sys)
    → IsPrompt lag t.os.oracle
    → dst < 2 ^ 32
    → target.net.ip < 2 ^ 32
    → not_for_us t.net.ip dst ≡ false
    → length head ≡ 8
    → id < 2 ^ 16
    → Gives head (answer_frame mac dst id target) t
    → rx_once t ≡ done tt (noted target.net.ip id 1 (heard_answer target t))
unfolding dispatch
rx_once-answer lag mac dst id head target t prompt hd hs ours eight small (writes, reads) =
    let payload = echo_reply (echo_request id 1) in
    let size = length-answer id in
    let heard = heard_answer target t in
    rx_once-ip_frame mac dst ipproto_icmp payload head target t (writes t.os.write_calls)
      (reads t.os.read_calls 1519) eight (omega (arith, size))
    ∙ ip_rx-headers mac dst ipproto_icmp (length payload) payload target (polled t) hd hs
        (omega (arith, size)) (omega (arith, size)) ours
    ∙ ap (λ (n : ℕ). icmp_rx target.net.ip payload n heard) size
    ∙ (ping_exchange lag 0 target.net.ip id 1 t heard prompt small (omega arith)).1

-- A wait stops at a noted answer.
wait_reply-stops :
    (yield : M (Unit {0})) (fuel deadline : ℕ) (s : Sys)
    → s.net.ping_replied ≡ true
    → wait_reply yield (suc fuel) deadline s ≡ done tt (ticked s)
unfolding wait_reply
wait_reply-stops yield fuel deadline s replied =
    let again = yield >> wait_reply yield fuel deadline in
    elim (Bool-cases (ltb (now_of s) deadline)) [
      | inr late ↦ rw (wait_reply, late) refl
      | inl early ↦
          rw (wait_reply, early) (ap (λ (b : Bool). (if b then skip else again) (ticked s)) replied)
    ]

-- A wait that begins before the deadline, and whose first `yield` notes an answer.
wait_reply-noted :
    (yield : M (Unit {0})) (fuel deadline : ℕ) (s t : Sys)
    → 1 < fuel
    → now_of s < deadline
    → s.net.ping_replied ≡ false
    → yield (ticked s) ≡ done tt t
    → t.net.ping_replied ≡ true
    → wait_reply yield fuel deadline s ≡ done tt (ticked t)
unfolding wait_reply
wait_reply-noted yield zero deadline s t room early quiet yielded noted' = absurd (omega arith)
wait_reply-noted yield (suc zero) deadline s t room early quiet yielded noted' =
    absurd (omega arith)
wait_reply-noted yield (suc (suc fuel)) deadline s t room early quiet yielded noted' =
    let again = yield >> wait_reply yield (suc fuel) deadline in
    rw (lt→ltb (now_of s) deadline early, wait_reply)
      (ap (λ (b : Bool). (if b then skip else again) (ticked s)) quiet
        ∙ ap (λ o. and_then o (λ _. wait_reply yield (suc fuel) deadline)) yielded
        ∙ wait_reply-stops yield fuel deadline t noted')

-- The machine that waits for the answer to its first request.
abbrev asking : ℕ → Sys → Sys
asking id s = record s { net = record (s.net) { ping_id = id; ping_seq = 1; ping_replied = false } }

fuel_for_two : (lag : ℕ) (s : Sys) → IsPrompt lag s.os.oracle → 1 < s.os.fuel
fuel_for_two lag s prompt = grind (arith, prompt.enough)

-- The machine with the answer noted.
abbrev answered : ℕ → Sys → Sys
answered src s = record s { net = record (s.net) { ping_reply_ip = src; ping_replied = true } }

noted-answered :
    (src id : ℕ) (s : Sys)
    → s.net.ping_id ≡ id
    → s.net.ping_seq ≡ 1
    → noted src id 1 s ≡ answered src s
noted-answered src id s e_id e_seq =
    let same : (id == s.net.ping_id) && (1 == s.net.ping_seq) ≡ true =
      ap (λ n. (id == n) && (1 == s.net.ping_seq)) e_id
      ∙ ap (λ n. (id == id) && (1 == n)) e_seq
      ∙ ap (λ b. b && true) (==-refl id) in
    ap
      (λ (b : Bool). record s {
        net = if b then record (s.net) { ping_reply_ip = src; ping_replied = true } else s.net;
      })
      same

-- A round whose wait runs the receive step, on a device that has the answer.
ping_once-answered :
    (lag : ℕ) (mac : Mac) (dst id ip timeout : ℕ) (head : List ℕ) (target s : Sys)
    → IsPrompt lag s.os.oracle
    → dst < 2 ^ 32
    → target.net.ip < 2 ^ 32
    → not_for_us s.net.ip dst ≡ false
    → length head ≡ 8
    → id < 2 ^ 16
    → Gives head (answer_frame mac dst id target) s
    → ((k : ℕ) → s.os.clock (suc k) < (s.os.clock k + timeout) % 2 ^ 64)
    → (s' : Sys) × (ping_once rx_once ip id 1 timeout no_reply s
        ≡ done (record { replied = true; reply_ip = target.net.ip }) s')
unfolding ping_once icmp_ping take_reply
ping_once-answered lag mac dst id ip timeout head target s prompt hd hs ours eight small gives
      swift =
    let (status, t, sent) =
      ip_tx-returns lag ip 1 (echo_request id 1) (asking id s) prompt
        (omega (arith, length-echo_request id 1)) in
    let waiting = ticked (after t (asking id s)) in
    let heard = heard_answer target (ticked waiting) in
    let found = answered target.net.ip heard in
    let received =
      rx_once-answer lag mac dst id head target (ticked waiting) prompt hd hs ours eight small gives
      ∙ ap (done tt) (noted-answered target.net.ip id heard refl refl) in
    let waited =
      wait_reply-noted rx_once s.os.fuel ((now_of (after t (asking id s)) + timeout) % 2 ^ 64)
        waiting found (fuel_for_two lag s prompt) (swift t.clock_calls) refl received refl in
    (
      record (ticked found) { net = record (found.net) { ping_replied = false } },
      rw (sent, waited) refl,
    )

-- Where the kernel runs the daemon's receive step at a `yield` of the wait, a ping with one
-- request whose answer the device has ends with the status 0, the note of a reply and the address
-- of the machine that answered. The request has all its fields; the answer is the frame in which
-- ip_tx of that machine packs its reply to the first echo request, to an address that the daemon
-- takes as its own; the device replies to every read with that frame in one piece and takes every
-- write; addresses are 32-bit numbers; and the clock does not go on by the timeout, nor wrap, from
-- one reading to the next.
pub ping-answered :
    (lag : ℕ) (mac : Mac) (dst : ℕ) (head req : List ℕ) (target s : Sys)
    → IsPrompt lag s.os.oracle
    → 12 ≤ length req
    → or_default (word16 req 8) 1 ≡ 1
    → dst < 2 ^ 32
    → target.net.ip < 2 ^ 32
    → not_for_us s.net.ip dst ≡ false
    → length head ≡ 8
    → Gives head (answer_frame mac dst (now_of s % 2 ^ 16) target) s
    → ((k : ℕ) → s.os.clock (suc k) < (s.os.clock k + or_default (word16 req 10) 2000) % 2 ^ 64)
    → (s' : Sys) × (ping rx_once req s
        ≡ done (reply (pos 0) (bytes32 1 ++ bytes32 target.net.ip)) s')
unfolding ping ping_rounds ping_reply with_size
ping-answered lag mac dst head req target s prompt long once hd hs ours eight gives swift =
    let id = now_of s % 2 ^ 16 in
    let (s', answer) =
      ping_once-answered lag mac dst id (word32 req 4) (or_default (word16 req 10) 2000) head target
        (ticked s) prompt hd hs ours eight (omega arith) gives swift in
    (
      s',
      rw
          (
            le→not-ltb (length req) 12 long,
            load32_inside req 4 (omega arith),
            load16_inside req 8 (omega arith),
            load16_inside req 10 (omega arith),
            once,
            answer,
          )
          refl,
    )
