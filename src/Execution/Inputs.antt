-- ===== src/Execution/Inputs.antt =====
-- neuronium_agent/execution/executor.py: what a node is given, `_gather_inputs` and the prompts.
mod Prompts
mod Feedback
mod Defs
pub mod Precedence
unfoldable pub use Prompts.*
unfoldable pub use Feedback.*
unfoldable pub use Defs.*
