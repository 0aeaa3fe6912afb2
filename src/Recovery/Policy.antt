-- ===== src/Recovery/Policy.antt =====
-- neuronium_agent/recovery/policy.py: what to do after a stage's gate has failed.
mod Defs
pub mod Repeats
pub mod Decisions
unfoldable pub use Defs.*
