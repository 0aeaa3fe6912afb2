-- ===== src/Core/State.antt =====
-- neuronium_agent/core/state.py: the state machine of a run.
mod Defs
pub mod Lifecycle
unfoldable pub use Defs.*
