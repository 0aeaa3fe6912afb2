-- ===== src/Core/Run.antt =====
-- neuronium_agent/core/orchestrator.py: the control commands and the stage loop.
pub mod World
pub mod Env
pub mod Answers
pub mod Decisions
pub mod Control
pub mod Planner
pub mod Attempts
pub mod Execute
pub mod Verdicts
pub mod Recover
pub mod Adapt
pub mod Resume
pub mod Commit
pub mod Runbook
pub mod Infer
pub mod Launch
pub mod Launching
pub mod Oldest
pub mod Rules
pub mod Commands
pub mod Endings
pub mod Stages
pub mod Settled
pub mod Passes
pub mod Retrying
pub mod Fuel
pub mod Total
pub mod TotalStages
pub mod Finished
pub mod Pausing
pub mod Interrupting
