-- ===== src/Ip.antt =====
-- ip.c: sending and receiving IPv4 packets.
pub mod Tx
pub mod Rx
