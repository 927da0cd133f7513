-- ===== src/Dns.antt =====
-- dns.c: queries for the address of a name.
pub mod Query
pub mod Rx
pub mod Resolve
