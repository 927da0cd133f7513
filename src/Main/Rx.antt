-- ===== src/Main/Rx.antt =====
-- rx_once of main.c: one round of the receive loop.
pub mod Arrivals
use netd_moduos.Common.{ℕ, ◌*◌, ◌^◌, bit_or, List, ◌==◌, if◌then◌else◌, get_elem?}
use netd_moduos.Wire.Constants.{ethertype_ip, ethertype_arp}
use netd_moduos.State.{M, skip, need, ◌>>=◌}
use netd_moduos.Driver.{Received, rx_error, nothing, frame, driver_rx}
use netd_moduos.Arp.{arp_rx}
use netd_moduos.Ip.Rx.{ip_rx}

-- The dispatch on the EtherType, which dns_resolve repeats.
unfoldable pub rx_frame : List ℕ → M (Unit {0})
rx_frame bytes = do
  hi ← need (get_elem? bytes 12)
  lo ← need (get_elem? bytes 13)
  let et = bit_or (hi * 2 ^ 8) lo
  if et == ethertype_ip then ip_rx bytes else if et == ethertype_arp then arp_rx bytes else skip

unfoldable pub on_received : Received → M (Unit {0})
on_received rx_error = skip
on_received nothing = skip
on_received (frame bytes) = rx_frame bytes

-- rx_once; the frame buffer has 1518 bytes.
unfoldable pub rx_once : M (Unit {0})
rx_once = driver_rx 1518 >>= on_received
