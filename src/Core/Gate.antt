-- ===== src/Core/Gate.antt =====
-- The success gate of a stage: core/orchestrator.py, planning/runbook_contract.py and
-- verification/demo_critic.py.
mod Defs
pub mod Passes
unfoldable pub use Defs.*
