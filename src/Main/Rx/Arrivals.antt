-- ===== src/Main/Rx/Arrivals.antt =====
-- From the device's reply to ip_rx.
use netd_moduos.Common.{ℕ, ◌≤◌, ◌≡◌, refl, ap, ◌∙◌, true, List, length, arith}
use netd_moduos.State.{Mac, Sys, got, and_then}
use netd_moduos.Driver.Deliver.{device_reply, polled, driver_rx-device_reply}
use netd_moduos.Ip.Tx.{ethernet_header}
use netd_moduos.Ip.Tx.Laws.Send.{ip_frame, length-ip_frame}
use netd_moduos.Ip.Rx.{ip_rx}
use netd_moduos.Wire.Endian.{htons}
use netd_moduos.Main.Rx.{rx_frame, on_received, rx_once}

rx_frame-ip_frame :
    (mac : Mac) (dst proto : ℕ) (payload : List ℕ) (s t : Sys)
    → rx_frame (ip_frame mac dst proto payload s) t ≡ ip_rx (ip_frame mac dst proto payload s) t
unfolding rx_frame ethernet_header htons
rx_frame-ip_frame mac dst proto payload s t = refl

-- On a device that takes the poll and gives in one piece a reply with a frame of ip_tx, with a
-- payload of at most 1472 bytes, eight bytes and the length of the frame before it and a zero
-- behind it, the receive step does with the frame what ip_rx does, after one write and one read.
pub rx_once-ip_frame :
    (mac : Mac) (dst proto : ℕ) (payload head : List ℕ) (s t : Sys)
    → t.os.writes t.os.write_calls ≡ true
    → t.os.reads t.os.read_calls 1519 ≡ got (device_reply head (ip_frame mac dst proto payload s))
    → length head ≡ 8
    → length payload ≤ 1472
    → rx_once t ≡ ip_rx (ip_frame mac dst proto payload s) (polled t)
unfolding rx_once on_received
rx_once-ip_frame mac dst proto payload head s t sent answers eight small =
    let bytes = ip_frame mac dst proto payload s in
    let size = length-ip_frame mac dst proto payload s in
    ap (λ o. and_then o on_received)
      (driver_rx-device_reply 1518 head bytes t sent answers eight (omega (arith, size))
        (omega (arith, size, small)) (omega (arith, size, small)))
    ∙ rx_frame-ip_frame mac dst proto payload s (polled t)
