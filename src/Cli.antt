-- ===== src/Cli.antt =====
-- src/cli: the work on one device, the arguments, and the configuration file.
pub mod Shared
pub mod Config
pub mod Args
mod Tests
