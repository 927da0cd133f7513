-- ===== src/Examples.antt =====
-- The theorems at concrete inputs, and runs of the definitions.
mod World
mod Wire
mod Arp
mod Send
mod Pings
mod Receive
mod Dhcp
mod Live
mod Messages
mod Libc
mod Heap
mod Strings
