-- ===== src/Trace/Checkpoints.antt =====
-- neuronium_agent/trace/checkpoints.py.
mod Defs
pub mod Restore
pub mod Latest
unfoldable pub use Defs.*
