-- ===== src/Planning.antt =====
-- The package neuronium_agent/planning.
pub mod Htn
pub mod Dag
pub mod Patch
pub mod Slots
