-- ===== src/Trace.antt =====
-- neuronium_agent/trace: checkpoints of a run, and the replay of a recorded one.
pub mod Checkpoints
pub mod Replay
