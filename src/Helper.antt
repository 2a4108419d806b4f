-- ===== src/Helper.antt =====
-- src/bluetooth: the process that does the Bluetooth work, its requests and its transports.
pub mod Json
pub mod Client
mod Tests
