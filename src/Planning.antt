-- ===== src/Planning.antt =====
-- The planner and what feeds it: apps/main/src.
pub mod Lp
pub mod Planner
pub mod Feed
pub mod Workspace
mod Tests
