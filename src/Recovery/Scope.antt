-- ===== src/Recovery/Scope.antt =====
-- neuronium_agent/recovery/scope.py: which nodes are rolled back, and which are preserved.
mod Defs
pub mod Reach
pub mod Dependents
pub mod Preserved
unfoldable pub use Defs.*
