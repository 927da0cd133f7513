-- ===== src/Udp.antt =====
-- udp.c: the table of bound ports, and datagrams.
pub mod Table
pub mod Tx
pub mod Rx
