-- ===== src/Live.antt =====
-- Which handlers come to an end. Any of them may read outside a buffer, on a packet that lies about
-- its lengths; none of them waits for ever on a device that answers.
pub mod Rules
pub mod Send
pub mod Receive
pub mod Loops
pub mod Waits
pub mod Daemon
pub mod Requests
pub mod Ends
pub mod Configured
