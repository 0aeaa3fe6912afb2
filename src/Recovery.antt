-- ===== src/Recovery.antt =====
-- The package neuronium_agent/recovery: what a failed node means, and what the run does about it.
pub mod Classifier
pub mod Scope
pub mod Policy
