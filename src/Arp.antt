-- ===== src/Arp.antt =====
-- arp.c: the cache of neighbours, and the ARP packets that fill it.
mod Cache
mod Packet
pub mod Entries
pub mod Learn
pub mod Lookup
pub mod Evict
pub mod Handshake
unfoldable pub use Cache.*
unfoldable pub use Packet.*
