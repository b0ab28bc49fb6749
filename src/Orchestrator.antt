-- ===== src/Orchestrator.antt =====
-- Package orchestrator.
pub mod Dag
pub mod StepExecutor
pub mod Engine
pub mod Validators
pub mod Grounding
pub mod Metrics
mod Tests
