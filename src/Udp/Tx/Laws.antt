-- ===== src/Udp/Tx/Laws.antt =====
-- udp_tx for every length of its data.
use netd_moduos.Common.{
  ℕ, ◌+◌, ◌%◌, ◌^◌, ◌≤◌, ◌<◌, ◌≡◌, refl, List, ℤ, le→not-ltb, arith, length, length-append,
}
use netd_moduos.Wire.Constants.{ipproto_udp}
use netd_moduos.State.{Sys, done, fault}
use netd_moduos.Driver.Reply.{IsPrompt}
use netd_moduos.Ip.Tx.{ip_tx}
use netd_moduos.Ip.Tx.Laws.Total.{Traffic, after, ip_tx-returns, ip_tx-overruns}
use netd_moduos.Udp.Tx.{udp_header, datagram, udp_tx}

length-udp_header : (a b c : ℕ) → length (udp_header a b c) ≡ 8
unfolding udp_header
length-udp_header a b c = refl

pub length-datagram : (a b : ℕ) (xs : List ℕ) → length (datagram a b xs) ≡ 8 + length xs
unfolding datagram
length-datagram a b xs = omega (
  arith,
  length-append (udp_header a b ((8 + length xs) % 2 ^ 16)) xs,
  length-udp_header a b ((8 + length xs) % 2 ^ 16),
)

pub udp_tx-ip_tx :
    (dst src_port dst_port : ℕ) (xs : List ℕ) (s : Sys)
    → length xs ≤ 1472
    → udp_tx dst src_port dst_port xs s ≡ ip_tx dst ipproto_udp (datagram src_port dst_port xs) s
unfolding udp_tx
udp_tx-ip_tx dst src_port dst_port xs s small = rw (le→not-ltb 1472 (length xs) small) refl

-- On a device that answers, udp_tx returns for up to 1458 bytes of data; of the daemon's settings
-- only the neighbour table can change.
pub udp_tx-returns :
    (lag dst src_port dst_port : ℕ) (xs : List ℕ) (s : Sys)
    → IsPrompt lag s.os.oracle
    → length xs ≤ 1458
    → (status : ℤ) × (t : Traffic) × (udp_tx dst src_port dst_port xs s ≡ done status (after t s))
udp_tx-returns lag dst src_port dst_port xs s prompt small =
    let (status, t, e) =
      ip_tx-returns lag dst ipproto_udp (datagram src_port dst_port xs) s prompt
        (omega (arith, length-datagram src_port dst_port xs)) in
    (status, t, rw (udp_tx-ip_tx dst src_port dst_port xs s (omega arith)) e)

-- The check of the length in udp_tx lets 1459 to 1472 bytes of data through, which overrun the
-- command packet of the driver, on a device that answers.
pub udp_tx-overruns :
    (lag dst src_port dst_port : ℕ) (xs : List ℕ) (s : Sys)
    → IsPrompt lag s.os.oracle
    → 1458 < length xs
    → length xs ≤ 1472
    → udp_tx dst src_port dst_port xs s ≡ fault
udp_tx-overruns lag dst src_port dst_port xs s prompt big small =
    rw (udp_tx-ip_tx dst src_port dst_port xs s small) (
      ip_tx-overruns lag dst ipproto_udp (datagram src_port dst_port xs) s prompt
        (omega (arith, length-datagram src_port dst_port xs)))
