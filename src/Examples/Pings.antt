-- ===== src/Examples/Pings.antt =====
-- A ping whose answer arrives while the kernel runs the daemon's loop.
use netd_moduos.Common.{
  ℕ, suc, ◌+◌, ◌%◌, ◌^◌, ◌<◌, ◌≡◌, refl, false, List, [], ◌∷◌, ◌++◌, pos, arith, replicate,
  if◌then◌else◌, ltb,
}
use netd_moduos.State.{Sys, Oracle, got, done}
use netd_moduos.Driver.Reply.{IsPrompt}
use netd_moduos.Driver.Deliver.{device_reply}
use netd_moduos.Ip.Rx.{not_for_us}
use netd_moduos.Main.Rx.{rx_once}
use netd_moduos.Api.Reply.{bytes32, reply}
use netd_moduos.Api.Ping.{ping}
use netd_moduos.Api.Answered.{answer_frame, ping-answered}
use netd_moduos.Examples.World.{oracle, mac_a, ip_a, ip_b, machine_a, machine_b}

-- The answer of 10.0.2.16 to the request that 10.0.2.15 sends with the identifier 1000.
abbrev answer : List ℕ
answer = device_reply (replicate 8 0) (answer_frame mac_a ip_a 1000 machine_b)

-- A clock from 1000 ms to 1500 ms, and a device that has the answer.
abbrev answering : Oracle
answering = record oracle {
  clock = λ n. if ltb n 500 then 1000 + n else 1500;
  reads = λ i size. got answer;
}

answering-IsPrompt : IsPrompt 0 answering
answering-IsPrompt = record { answers = λ i size. (0, omega arith, λ e. cc); enough = omega arith }

abbrev asker : Sys
asker = record machine_a { os = record (machine_a.os) { oracle = answering } }

-- NETD_CMD_PING for 10.0.2.16, once, 600 ms.
abbrev one_ping : List ℕ
one_ping = 2 ∷ 0 ∷ 0 ∷ 0 ∷ 16 ∷ 2 ∷ 0 ∷ 10 ∷ 1 ∷ 0 ∷ 88 ∷ 2 ∷ []

swift : (k : ℕ) → answering.clock (suc k) < (answering.clock k + 600) % 2 ^ 64
swift k = ground arith

a_takes : not_for_us ip_a ip_a ≡ false
unfolding not_for_us
a_takes = refl

ping-answered_example :
    (s' : Sys) × (ping rx_once one_ping asker ≡ done (reply (pos 0) (bytes32 1 ++ bytes32 ip_b)) s')
ping-answered_example =
    ping-answered 0 mac_a ip_a (replicate 8 0) one_ping machine_b asker answering-IsPrompt
      (omega arith) refl (ground arith) (ground arith) a_takes refl ((λ i. refl), λ i size. refl)
      swift
