-- ===== src/Planning/Dag.antt =====
-- neuronium_agent/planning/dag.py: the action graph and Kahn's algorithm.
mod Defs
pub mod Degrees
pub mod Sorting
pub mod Invariant
pub mod Order
pub mod Progress
pub mod Acyclic
pub mod KeyOrder
unfoldable pub use Defs.*
