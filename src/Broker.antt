-- ===== src/Broker.antt =====
-- src/broker: the texts of commands.
pub mod Payload
pub mod Options
pub mod Basic
pub mod Topic
pub mod Bridge
mod Tests
