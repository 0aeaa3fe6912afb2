-- ===== src/Schemas.antt =====
-- neuronium_agent/schemas: input schemas and JSON pointers.
pub mod Pointer
