-- ===== src/Schemas/Pointer.antt =====
-- JSON pointers, as `schemas/tool_schema_registry.py` writes and reads them.
mod Defs
pub mod Roundtrip
unfoldable pub use Defs.*
