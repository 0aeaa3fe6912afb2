-- ===== src/Nodes.antt =====
-- neuronium_agent/nodes/base.py, the failure classes and interrupts of neuronium_agent/types.py.
use neuronium.Prelude.{ℕ, String, Bool, Option}
use neuronium.Prelude.Int.{ℤ}
use neuronium.Prelude.Value.{Value, Fields}

pub data FailureKind : Type 0 where
  transient persistent systemic critical : FailureKind

-- The message is the error's text, or what stands in for an empty one.
pub data Message : Type 0 where
  error_text : String → Message
  default_text : String → Message
  after_retries : ℕ → Message

pub record FailureClass : Type 0 where
  pub kind : FailureKind
  pub message : Message
  pub retryable : Bool

pub record NodeContext : Type 0 where
  pub execution_id : String
  pub trace_id : String
  pub retry_count : ℕ
  pub random_seed : ℤ

pub record NodeInput : Type 0 where
  pub inputs : Fields
  pub parameters : Fields
  pub context : NodeContext

pub data NodeStatus : Type 0 where
  completed failed timeout : NodeStatus

-- `quality_signals` is only copied: it is kept as the value that `model_dump` gives.
pub record NodeOutput : Type 0 where
  pub outputs : Fields
  pub quality_signals : Value
  pub status : NodeStatus
  pub error : Option String
  pub failure_class : Option FailureClass

abbrev pub is_completed : NodeStatus → Bool
is_completed completed = Bool.true
is_completed _ = Bool.false

pub data InterruptCommand : Type 0 where
  pause stop : InterruptCommand

pub data InterruptMode : Type 0 where
  graceful immediate : InterruptMode

pub record InterruptRequest : Type 0 where
  pub command : InterruptCommand
  pub mode : InterruptMode
  pub export_path : Option String
