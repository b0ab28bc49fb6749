-- ===== src/Planner.antt =====
-- Package planner.
pub mod Plan
pub mod Replanner
pub mod ContextAware
pub mod LlmPlanner
pub mod Fixed
mod Tests
