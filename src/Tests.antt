-- ===== src/Tests.antt =====
-- Runs of the modelled code on small inputs, and uses of the theorems on them.
mod Samples
mod Graphs
mod Runs
mod Recoveries
mod Patches
mod Lifecycles
mod Traces
mod Gates
mod Prompted
mod Settings
mod Slots
mod RunSamples
mod Orchestrator
mod Launches
mod Planned
