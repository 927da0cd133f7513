-- ===== src/Ip/Tx/Laws.antt =====
-- What ip_tx hands to the device.
pub mod Header
pub mod Route
pub mod Send
pub mod Total
