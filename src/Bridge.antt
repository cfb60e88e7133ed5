-- ===== src/Bridge.antt =====
-- snu/bridge.rs: the connection to the helper tab as tasks that share a state. Each step of a task is
-- what it does under one lock, or one atomic operation; between its steps the others may run.
pub mod Messages
pub mod State
pub mod Steps
pub mod Waiters
pub mod Cases
pub mod Tended
pub mod Waiting
pub mod Drained
pub mod Current
pub mod Generations
pub mod Support
pub mod Answers
pub mod Answered
mod Tests
