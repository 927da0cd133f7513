-- ===== src/Api.antt =====
-- api.c: the requests of other programs. A request is the bytes of `in_buf`, which are all that can
-- be read; packed structs are read with the machine's low byte first.
pub mod Reply
pub mod Info
pub mod Ping
pub mod Ports
pub mod Names
pub mod Invoke
pub mod Init
pub mod Short
pub mod Bounds
pub mod Settings
pub mod Answered
pub mod Pings
pub mod Requests
pub mod Transfer
