-- ===== src/Api/Ping.antt =====
-- NETD_CMD_PING. `yield` is a parameter: the kernel may run other code of the program meanwhile, as
-- the loop of md_main, which may change anything.
use netd_moduos.Common.{
  ℕ, zero, suc, ◌+◌, ◌%◌, ◌^◌, Bool, true, false, List, ◌++◌, pos, negsuc, ltb, if◌then◌else◌,
}
use netd_moduos.Wire.Memory.{load16, load32}
use netd_moduos.State.{M, spin, pure, skip, need, gets, modify, time_ms, ignore, ◌>>=◌, ◌>>◌}
use netd_moduos.Icmp.{icmp_ping}
use netd_moduos.Dhcp.Client.{or_default}
use netd_moduos.Api.Reply.{bytes32, Reply, reply, with_size}

-- netd_ping_rep_t.
pub record PingReply : Type 0 where
  pub replied : Bool
  pub reply_ip : ℕ

abbrev pub no_reply : PingReply
no_reply = record { replied = false; reply_ip = 0 }

-- `while (time_ms() < deadline && !g_net.ping_replied) yield();`
unfoldable pub wait_reply : M (Unit {0}) → ℕ → ℕ → M (Unit {0})
wait_reply yield zero deadline = λ s. spin
wait_reply yield (suc fuel) deadline =
    let again = yield >> wait_reply yield fuel deadline in
    time_ms >>= λ now.
    if ltb now deadline
    then (gets (λ n. n.ping_replied) >>= λ replied. if replied then skip else again)
    else skip

-- The `if (g_net.ping_replied)` behind the wait.
unfoldable pub take_reply : PingReply → M PingReply
take_reply rep = do
  replied ← gets (λ n. n.ping_replied)
  reply_ip ← gets (λ n. n.ping_reply_ip)
  if replied
      then modify (λ n. record n { ping_replied = false })
        >> pure (record { replied = true; reply_ip = reply_ip })
      else pure rep

-- One round of the loop; the fuel of its wait is the oracle's.
unfoldable pub ping_once : M (Unit {0}) → ℕ → ℕ → ℕ → ℕ → PingReply → M PingReply
ping_once yield ip id seq timeout rep s =
    (ignore (icmp_ping ip id seq)
        >> (time_ms >>= λ now.
            wait_reply yield s.os.fuel ((now + timeout) % 2 ^ 64) >> take_reply rep))
      s

-- `for (i = 0; i < count; i++)`, with `left` rounds to go. `seq` is a `uint16_t`.
unfoldable pub ping_rounds : M (Unit {0}) → ℕ → ℕ → ℕ → ℕ → ℕ → PingReply → M PingReply
ping_rounds yield zero ip id seq timeout rep = pure rep
ping_rounds yield (suc left) ip id seq timeout rep =
    ping_once yield ip id (seq % 2 ^ 16) timeout rep
    >>= ping_rounds yield left ip id (seq + 1) timeout

unfoldable pub ping_reply : PingReply → Reply
ping_reply rep =
    reply (if rep.replied then pos 0 else negsuc 0)
      (bytes32 (if rep.replied then 1 else 0) ++ bytes32 rep.reply_ip)

unfoldable pub ping : M (Unit {0}) → List ℕ → M Reply
ping yield req = with_size 8 req (do
  ip ← need (load32 req 4)
  count ← need (load16 req 8)
  timeout ← need (load16 req 10)
  now ← time_ms
  rep ←
      ping_rounds yield (or_default count 1) ip (now % 2 ^ 16) 1 (or_default timeout 2000) no_reply
  pure (ping_reply rep))
