-- ===== src/Main.antt =====
-- main.c: the receive loop and the start of the daemon.
pub mod Rx
pub mod Start
pub mod Laws
