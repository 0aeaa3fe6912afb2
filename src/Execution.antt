-- ===== src/Execution.antt =====
-- neuronium_agent/execution/executor.py: the deterministic DAG executor.
pub mod Single
pub mod Loop
pub mod Inputs
