-- ===== src/Devices.antt =====
-- src/devices: register fields, their decoding, the device models and the registry.
pub mod Field
pub mod Struct
pub mod Builders
pub mod Definition
pub mod Device
pub mod Registry
mod Tests
