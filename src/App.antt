-- ===== src/App.antt =====
-- src/app: the polling schedule and the commands of a polling cycle.
pub mod Polling
pub mod Runner
pub mod Connection
pub mod Handler
pub mod Queue
pub mod Server
mod Tests
