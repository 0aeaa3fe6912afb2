-- ===== src/Config.antt =====
-- neuronium_agent/config.py: the layers of the configuration.
mod Defs
pub mod Layers
unfoldable pub use Defs.*
