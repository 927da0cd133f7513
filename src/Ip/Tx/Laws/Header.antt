-- ===== src/Ip/Tx/Laws/Header.antt =====
-- The IPv4 header that ip_tx builds.
use netd_moduos.Common.{
  ℕ, ◌/◌, ◌%◌, ◌^◌, ◌<◌, ◌≡◌, refl, List, [], ◌∷◌, ◌++◌, arith, length, get_or,
}
use netd_moduos.Wire.Endian.{htons, htonl, ntohs, ntohl}
use netd_moduos.Wire.Loads.{word16, word32, ntohs_stored, ntohl_stored}
use netd_moduos.Wire.Cksum.{inet_cksum}
use netd_moduos.Wire.Cksum.Laws.{inet_cksum-verifies, htons_cksum}
use netd_moduos.Ip.Tx.{header_fields, ip_header}

-- The bytes before and behind the checksum.
abbrev front : ℕ → ℕ → ℕ → List ℕ
front total id proto =
    0x45
    ∷ 0
    ∷ (htons total % 256)
    ∷ (htons total / 256 % 256)
    ∷ (htons id % 256)
    ∷ (htons id / 256 % 256)
    ∷ 0
    ∷ 0
    ∷ 64
    ∷ proto
    ∷ []

abbrev back : ℕ → ℕ → List ℕ
back src dst =
    (htonl src % 256)
    ∷ (htonl src / 256 % 256)
    ∷ (htonl src / 2 ^ 16 % 256)
    ∷ (htonl src / 2 ^ 24 % 256)
    ∷ (htonl dst % 256)
    ∷ (htonl dst / 256 % 256)
    ∷ (htonl dst / 2 ^ 16 % 256)
    ∷ (htonl dst / 2 ^ 24 % 256)
    ∷ []

header_fields_lem :
    (total id proto src dst : ℕ)
    → header_fields total id proto src dst ≡ front total id proto ++ 0 ∷ 0 ∷ back src dst
unfolding header_fields
header_fields_lem total id proto src dst = refl

pub ip_header_lem :
    (total id proto src dst : ℕ)
    → let c = inet_cksum (header_fields total id proto src dst) in
      ip_header total id proto src dst
      ≡ front total id proto ++ (htons c % 256) ∷ (htons c / 256 % 256) ∷ back src dst
unfolding ip_header header_fields
ip_header_lem total id proto src dst = refl

-- A receiver that checksums the header of any packet, with a protocol number that is a byte, gets
-- zero.
pub inet_cksum-ip_header :
    (total id proto src dst : ℕ) → proto < 256 → inet_cksum (ip_header total id proto src dst) ≡ 0
inet_cksum-ip_header total id proto src dst small =
    let (hi, lo) = htons_cksum (header_fields total id proto src dst) in
    rw (ip_header_lem total id proto src dst, hi, lo, header_fields_lem total id proto src dst)
      (inet_cksum-verifies (front total id proto) (back src dst) (omega arith) (omega arith)
        (omega arith) (omega arith))

-- The fields of the header, as ip_rx reads them.
pub ip_header_fields :
    (total id proto src dst : ℕ)
    → total < 2 ^ 16
    → src < 2 ^ 32
    → dst < 2 ^ 32
    → let h = ip_header total id proto src dst in
      (length h ≡ 20)
      × (get_or h 0 0 ≡ 0x45)
      × (ntohs (word16 h 2) ≡ total)
      × (get_or h 9 0 ≡ proto)
      × (ntohl (word32 h 12) ≡ src)
      × (ntohl (word32 h 16) ≡ dst)
unfolding ip_header header_fields
ip_header_fields total id proto src dst ht hs hd =
    (refl, refl, ntohs_stored total ht, refl, ntohl_stored src hs, ntohl_stored dst hd)
