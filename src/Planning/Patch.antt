-- ===== src/Planning/Patch.antt =====
-- neuronium_agent/planning/state_patch.py: patches on the state.
mod Defs
pub mod Access
mod Steps
mod Writes
pub mod Laws
unfoldable pub use Defs.*
