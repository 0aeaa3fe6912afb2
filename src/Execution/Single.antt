-- ===== src/Execution/Single.antt =====
-- neuronium_agent/execution/executor.py: one node with its retries, `_execute_single`.
mod Defs
pub mod Retries
unfoldable pub use Defs.*
