-- ===== src/Wire.antt =====
-- netd.h: the byte order helpers, the loads and stores through cast pointers, the wire constants
-- and the Internet checksum. The target is x86-64, so `*(uint16_t *)p` reads the low byte first.
-- Loads past the end of a buffer are `none`.
pub mod Constants
pub mod Endian
pub mod Memory
pub mod Loads
pub mod Fields
pub mod Cksum
