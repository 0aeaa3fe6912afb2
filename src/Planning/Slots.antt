-- ===== src/Planning/Slots.antt =====
-- neuronium_agent/planning/missing_slots.py, with the required pointers of
-- schemas/tool_schema_registry.py.
mod Defs
pub mod Depth
pub mod Required
pub mod Report
pub mod Reported
unfoldable pub use Defs.*
