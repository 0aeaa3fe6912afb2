-- ===== src/Execution/Loop.antt =====
-- neuronium_agent/execution/executor.py: the batches of `DAGExecutor.execute`.
mod Defs
pub mod Ordering
pub mod Invariant
pub mod Round
pub mod Batch
pub mod Safety
pub mod Start
pub mod Complete
pub mod Determinism
unfoldable pub use Defs.*
