-- ===== src/Udp/Tx.antt =====
-- udp_tx of udp.c.
pub mod Laws
use netd_moduos.Common.{
  ℕ, ◌+◌, ◌%◌, ◌^◌, List, ◌++◌, ℤ, negsuc, ltb, if◌then◌else◌, length, replicate,
}
use netd_moduos.Wire.Constants.{ipproto_udp}
use netd_moduos.Wire.Endian.{htons}
use netd_moduos.Wire.Memory.{store16}
use netd_moduos.State.{M, pure}
use netd_moduos.Ip.Tx.{ip_tx}

-- The 8 bytes before the data; the checksum is optional and left zero.
unfoldable pub udp_header : ℕ → ℕ → ℕ → List ℕ
udp_header src_port dst_port udp_len =
    store16
      (store16 (store16 (store16 (replicate 8 0) 0 (htons src_port)) 2 (htons dst_port)) 4
        (htons udp_len))
      6 0

unfoldable pub datagram : ℕ → ℕ → List ℕ → List ℕ
datagram src_port dst_port data' =
    udp_header src_port dst_port ((8 + length data') % 2 ^ 16) ++ data'

-- udp_tx, with `data[0 .. len)`. More than 1472 bytes are refused.
unfoldable pub udp_tx : ℕ → ℕ → ℕ → List ℕ → M ℤ
udp_tx dst src_port dst_port data' =
    if ltb 1472 (length data')
    then pure (negsuc 0)
    else ip_tx dst ipproto_udp (datagram src_port dst_port data')
