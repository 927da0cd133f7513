-- ===== src/Main/Laws.antt =====
-- The configuration of md_main without a lease.
use netd_moduos.Common.{ℕ, ◌/◌, ◌^◌, ◌<◌, ◌≡◌, refl, ◌==◌, if◌then◌else◌, arith}
use netd_moduos.Wire.Constants.{make_ip}
use netd_moduos.State.{Net}
use netd_moduos.Ip.Tx.{next_hop}
use netd_moduos.Ip.Tx.Laws.Route.{next_hop-prefix}
use netd_moduos.Main.Start.{fall_back}

-- Without a lease the daemon reaches the addresses 10.0.2.x themselves, and every other 32-bit
-- address through 10.0.2.1.
pub next_hop-fall_back :
    (n : Net) (dst : ℕ)
    → dst < 2 ^ 32
    → next_hop (fall_back n) dst ≡ (if dst / 2 ^ 8 == 0x0a_0002 then dst else make_ip 10 0 2 1)
unfolding fall_back
next_hop-fall_back n dst small =
    next_hop-prefix (fall_back n) 8 24 dst (ground arith) refl (omega arith) (omega arith)
