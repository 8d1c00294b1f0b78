-- ===== src/Tests.antt =====
-- The theorems at concrete inputs.
mod Fixtures
pub mod Tasks
pub mod Backend
pub mod Backends
pub mod Http
pub mod Handles
pub mod Runners
pub mod Data
pub mod Streams
pub mod Requests
pub mod Queues
pub mod Sqs
pub mod Prompts
pub mod Monitors
pub mod Access
pub mod Files
