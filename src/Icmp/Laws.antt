-- ===== src/Icmp/Laws.antt =====
-- Which requests icmp_rx (icmp.c) answers, where it leaves a buffer, and the exchange of a ping.
use netd_moduos.Common.{
  ℕ, suc, ◌%◌, ◌/◌, ◌^◌, ◌≤◌, ◌<◌, ◌≡◌, refl, ◌∙◌, true, ◌&&◌, List, [], ◌∷◌, ltb, ◌==◌, le→not-ltb,
  lt→ltb, if◌then◌else◌, arith, length, take, not-ltb→le, Bool-cases, inl, inr,
}
use netd_moduos.Wire.Constants.{ipproto_icmp}
use netd_moduos.Wire.Endian.{htons, ntohs}
use netd_moduos.Wire.Memory.{bytes?}
use netd_moduos.Wire.Loads.{word16, load16_inside, ntohs_stored}
use netd_moduos.Wire.Cksum.{inet_cksum}
use netd_moduos.Wire.Cksum.Laws.{inet_cksum-verifies, htons_cksum}
use netd_moduos.State.{Sys, done, fault, ignore}
use netd_moduos.Driver.Reply.{IsPrompt}
use netd_moduos.Ip.Tx.{ip_tx}
use netd_moduos.Ip.Tx.Laws.Total.{Traffic, after, ip_tx-returns, ip_tx-overruns}
use netd_moduos.Icmp.{echo_reply, answer_echo, note_reply, icmp_rx, echo_request, ping_text}
use netd_moduos.Icmp.Echo.{bytes?_inside, icmp_rx_request, length-echo_reply-take}

-- An echo request of 8 to 1466 bytes, all of them received, is answered: what ip_tx is given for
-- the sender is the request as echo_reply_lem describes it. On a device that answers this returns,
-- and of the daemon's settings only the neighbour table can change.
pub icmp_rx-answers :
    (lag src len : ℕ) (rest : List ℕ) (s : Sys)
    → IsPrompt lag s.os.oracle
    → 8 ≤ len
    → len ≤ 1466
    → len ≤ suc (length rest)
    → (icmp_rx src (8 ∷ rest) len s
        ≡ ignore (ip_tx src ipproto_icmp (echo_reply (take len (8 ∷ rest)))) s)
      × ((t : Traffic) × (icmp_rx src (8 ∷ rest) len s ≡ done tt (after t s)))
unfolding answer_echo
icmp_rx-answers lag src len rest s prompt big small fits =
    let reply = echo_reply (take len (8 ∷ rest)) in
    let run : icmp_rx src (8 ∷ rest) len s ≡ ignore (ip_tx src ipproto_icmp reply) s =
      icmp_rx_request src len rest s big fits
      ∙ rw (le→not-ltb 1500 len (omega arith), answer_echo, bytes?_inside (8 ∷ rest) len fits)
          refl in
    let (status, t, sent) =
      ip_tx-returns lag src ipproto_icmp reply s prompt
        (omega (arith, length-echo_reply-take len (8 ∷ rest) fits)) in
    (run, (t, run ∙ rw sent refl))

answer_echo-overruns :
    (lag src len : ℕ) (xs : List ℕ) (s : Sys)
    → IsPrompt lag s.os.oracle
    → 1466 < len
    → answer_echo src xs len s ≡ fault
unfolding answer_echo bytes?
answer_echo-overruns lag src len xs s prompt big =
    let cut : ℕ = if ltb 1500 len then 1500 else len in
    let enough : 1466 < cut = ground arith in
    elim (Bool-cases (ltb (length xs) cut)) [
      | inl few ↦ rw (few, answer_echo, bytes?) refl
      | inr many ↦
          let fits : cut ≤ length xs = not-ltb→le (length xs) cut many in
          rw
            (
              many,
              answer_echo,
              bytes?,
              ip_tx-overruns lag src ipproto_icmp (echo_reply (take cut xs)) s prompt
                  (omega (arith, length-echo_reply-take cut xs fits)),
            )
            refl
    ]

-- On a device that answers, every echo request that claims more than 1466 bytes, and of which at
-- least 8 were received, overruns a buffer or reads past what was received.
pub icmp_rx-overruns :
    (lag src len : ℕ) (rest : List ℕ) (s : Sys)
    → IsPrompt lag s.os.oracle
    → 7 ≤ length rest
    → 1466 < len
    → icmp_rx src (8 ∷ rest) len s ≡ fault
unfolding icmp_rx
icmp_rx-overruns lag src len rest s prompt header big =
    rw
      (
        le→not-ltb len 8 (omega arith),
        icmp_rx,
        load16_inside (8 ∷ rest) 4 (omega arith),
        load16_inside (8 ∷ rest) 6 (omega arith),
      )
      (answer_echo-overruns lag src len (8 ∷ rest) s prompt big)

-- An echo request of which at least 8 bytes were received, and which claims more than were
-- received but no more than 1500, makes the handler read past them.
pub icmp_rx-overreads :
    (src len : ℕ) (rest : List ℕ) (s : Sys)
    → 7 ≤ length rest
    → 8 ≤ len
    → len ≤ 1500
    → suc (length rest) < len
    → icmp_rx src (8 ∷ rest) len s ≡ fault
unfolding icmp_rx answer_echo bytes?
icmp_rx-overreads src len rest s header big small more =
    rw
      (
        le→not-ltb len 8 (omega arith),
        icmp_rx,
        load16_inside (8 ∷ rest) 4 (omega arith),
        load16_inside (8 ∷ rest) 6 (omega arith),
        le→not-ltb 1500 len small,
        answer_echo,
        lt→ltb (suc (length rest)) len more,
        bytes?,
      )
      refl

-- The state after an echo reply: noted exactly when identifier and sequence number are those of
-- the last ping.
abbrev pub noted : ℕ → ℕ → ℕ → Sys → Sys
noted src id seq s = record s {
  net =
      if (id == s.net.ping_id) && (seq == s.net.ping_seq)
      then record (s.net) { ping_reply_ip = src; ping_replied = true }
      else s.net;
}

icmp_rx-reply :
    (src len : ℕ) (rest : List ℕ) (s : Sys)
    → 7 ≤ length rest
    → 8 ≤ len
    → icmp_rx src (0 ∷ rest) len s
      ≡ done tt (noted src (ntohs (word16 (0 ∷ rest) 4)) (ntohs (word16 (0 ∷ rest) 6)) s)
unfolding icmp_rx note_reply
icmp_rx-reply src len rest s header big =
    rw
      (
        le→not-ltb len 8 big,
        icmp_rx,
        load16_inside (0 ∷ rest) 4 (omega arith),
        load16_inside (0 ∷ rest) 6 (omega arith),
      )
      refl

-- The request of icmp_ping checksums to zero.
pub inet_cksum-echo_request : (id seq : ℕ) → inet_cksum (echo_request id seq) ≡ 0
unfolding echo_request
inet_cksum-echo_request id seq =
    let tail : List ℕ =
      (htons id % 256)
      ∷ (htons id / 256 % 256)
      ∷ (htons seq % 256)
      ∷ (htons seq / 256 % 256)
      ∷ ping_text in
    let (hi, lo) = htons_cksum (8 ∷ 0 ∷ 0 ∷ 0 ∷ tail) in
    rw (hi, lo)
      (inet_cksum-verifies (8 ∷ 0 ∷ []) tail (omega arith) (omega arith) (omega arith)
        (omega arith))

-- A ping between two machines: the request that icmp_ping sends with 16-bit `id` and `seq` makes a
-- machine in any state `s`, on a device that answers, hand ip_tx the echo reply for the request's
-- sender, and a machine in any state `t` that receives that reply notes it exactly when its last
-- ping had `id` and `seq`.
pub ping_exchange :
    (lag asker target id seq : ℕ) (s t : Sys)
    → IsPrompt lag s.os.oracle
    → id < 2 ^ 16
    → seq < 2 ^ 16
    → let request = echo_request id seq in
      let reply = echo_reply request in
      (icmp_rx asker request 16 s ≡ ignore (ip_tx asker ipproto_icmp reply) s)
      × (icmp_rx target reply 16 t ≡ done tt (noted target id seq t))
unfolding echo_request echo_reply
ping_exchange lag asker target id seq s t prompt hi hs = (
  (icmp_rx-answers lag asker 16 _ s prompt (omega arith) (omega arith) (omega arith)).0,
  icmp_rx-reply target 16 _ t (omega arith) (omega arith)
      ∙ rw (ntohs_stored id hi, ntohs_stored seq hs) refl,
)
