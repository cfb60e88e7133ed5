-- ===== src/Broker.antt =====
-- snu/broker.rs: the browser sessions that the broker remembers, and how it sends an action.
pub mod Origins
pub mod Sessions
pub mod Cells
pub mod Kept
pub mod Events
pub mod Dispatch
pub mod Course
pub mod Discipline
pub mod Replies
pub mod Codecs
pub mod Target
pub mod Control
pub mod Served
mod Tests
