-- ===== src/Dhcp.antt =====
-- dhcp.c: the client that gets the machine's address.
pub mod Options
pub mod Client
