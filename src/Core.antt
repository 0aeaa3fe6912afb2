-- ===== src/Core.antt =====
-- neuronium_agent/core: the state of a run, and the success gates of its stages.
pub mod State
pub mod Gate
pub mod Run
