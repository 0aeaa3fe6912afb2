-- ===== src/Trace/Replay.antt =====
-- neuronium_agent/trace/replay.py.
mod Defs
pub mod Injected
unfoldable pub use Defs.*
