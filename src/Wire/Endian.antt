-- ===== src/Wire/Endian.antt =====
-- htons, ntohs, htonl and ntohl of netd.h, and what they are as arithmetic.
use netd_moduos.Common.{ℕ, ◌+◌, ◌*◌, ◌/◌, ◌%◌, ◌^◌, ◌<◌, bit_and, bit_or, ◌≡◌, arith}
use netd_moduos.Common.Bits.{bit_or_fields_low, bit_and_mask, bit_and_above}

-- The shifts are done in `int`, on a 16-bit value; the cast cuts the result.
unfoldable pub htons : ℕ → ℕ
htons v = bit_or (v / 2 ^ 8) (v * 2 ^ 8) % 2 ^ 16

unfoldable pub ntohs : ℕ → ℕ
unfolding htons
ntohs v = htons v

-- The left shifts are done in `uint32_t` and drop the high bits.
unfoldable pub htonl : ℕ → ℕ
htonl v =
    bit_or
      (bit_or (bit_or (bit_and (v / 2 ^ 24) 0xff) (bit_and (v / 2 ^ 8) 0xff00))
        (bit_and (v * 2 ^ 8 % 2 ^ 32) 0xff_0000))
      (bit_and (v * 2 ^ 24 % 2 ^ 32) 0xff00_0000)

unfoldable pub ntohl : ℕ → ℕ
unfolding htonl
ntohl v = htonl v

pub htons_bytes : (v : ℕ) → v < 2 ^ 16 → htons v ≡ v % 256 * 256 + v / 256
unfolding htons
htons_bytes v h = omega (arith, bit_or_fields_low 8 v (v / 256) (omega arith))

-- A mask of eight ones at bit `k` picks one byte.
byte_mask : (v : ℕ) → bit_and v 0xff ≡ v % 256
byte_mask v = bit_and_mask 8 v

byte_mask_1 : (v : ℕ) → bit_and v 0xff00 ≡ v / 2 ^ 8 % 256 * 2 ^ 8
byte_mask_1 v = omega (arith, bit_and_above 8 v 0xff, byte_mask (v / 2 ^ 8))

byte_mask_2 : (v : ℕ) → bit_and v 0xff_0000 ≡ v / 2 ^ 16 % 256 * 2 ^ 16
byte_mask_2 v = omega (arith, bit_and_above 16 v 0xff, byte_mask (v / 2 ^ 16))

byte_mask_3 : (v : ℕ) → bit_and v 0xff00_0000 ≡ v / 2 ^ 24 % 256 * 2 ^ 24
byte_mask_3 v = omega (arith, bit_and_above 24 v 0xff, byte_mask (v / 2 ^ 24))

or_4_bytes :
    (a b c d : ℕ)
    → a < 256
    → b < 256
    → c < 256
    → bit_or (bit_or (bit_or a (b * 2 ^ 8)) (c * 2 ^ 16)) (d * 2 ^ 24)
      ≡ a + b * 2 ^ 8 + c * 2 ^ 16 + d * 2 ^ 24
or_4_bytes a b c d ha hb hc =
    let low : bit_or a (b * 2 ^ 8) ≡ b * 2 ^ 8 + a = bit_or_fields_low 8 b a (omega arith) in
    let mid : bit_or (b * 2 ^ 8 + a) (c * 2 ^ 16) ≡ c * 2 ^ 16 + (b * 2 ^ 8 + a) =
      bit_or_fields_low 16 c (b * 2 ^ 8 + a) (omega arith) in
    rw (low, mid, bit_or_fields_low 24 d (c * 2 ^ 16 + (b * 2 ^ 8 + a)) (omega arith)) (omega arith)

pub htonl_bytes :
    (v : ℕ)
    → v < 2 ^ 32
    → htonl v ≡ v / 2 ^ 24 + v / 2 ^ 16 % 256 * 2 ^ 8 + v / 2 ^ 8 % 256 * 2 ^ 16 + v % 256 * 2 ^ 24
unfolding htonl
htonl_bytes v h =
    rw
      (
        byte_mask (v / 2 ^ 24),
        byte_mask_1 (v / 2 ^ 8),
        byte_mask_2 (v * 2 ^ 8 % 2 ^ 32),
        byte_mask_3 (v * 2 ^ 24 % 2 ^ 32),
      )
      (omega (
        arith,
        or_4_bytes (v / 2 ^ 24 % 256) (v / 2 ^ 8 / 2 ^ 8 % 256) (v * 2 ^ 8 % 2 ^ 32 / 2 ^ 16 % 256)
            (v * 2 ^ 24 % 2 ^ 32 / 2 ^ 24 % 256) (omega arith) (omega arith) (omega arith),
      ))

-- The helpers undo themselves on 16-bit values.
pub ntohs-htons : (v : ℕ) → v < 2 ^ 16 → ntohs (htons v) ≡ v
unfolding ntohs
ntohs-htons v h =
    omega (arith, htons_bytes v h, htons_bytes (htons v) (omega (arith, htons_bytes v h)))

-- The helpers undo themselves on 32-bit values.
pub ntohl-htonl : (v : ℕ) → v < 2 ^ 32 → ntohl (htonl v) ≡ v
unfolding ntohl
ntohl-htonl v h =
    omega (arith, htonl_bytes v h, htonl_bytes (htonl v) (omega (arith, htonl_bytes v h)))
