-- ===== src/Dataset.antt =====
-- Packages of tables: cli/commands/data/package.rs, with the types of cli/commands/data/types.rs.
pub mod Types
pub mod Tables
pub mod Import
pub mod Validate
pub mod Package
pub mod Ids
pub mod Remap
pub mod Records
pub mod Resolved
pub mod Files
pub mod Required
pub mod Known
pub mod Complete
pub mod Ordered
pub mod Imported
mod Tests
pub mod Order
pub mod Edges
pub mod Visits
pub mod Left
pub mod Rounds
pub mod Sorted
