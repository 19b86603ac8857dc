-- ===== src/Tui/Events.antt =====
-- crates/tui/src/event.rs: what an event source tells the interface.
use kyora.Base.{ℕ, Bool, true, false, Option, Text, codes}

pub data Status : Type 0 where
  idle running done cancelled failed : Status

-- `Status::label`
unfoldable pub label : Status → Text
label Status.idle = codes "idle"
label Status.running = codes "running"
label Status.done = codes "done"
label Status.cancelled = codes "cancelled"
label Status.failed = codes "failed"

abbrev pub is_running : Status → Bool
is_running Status.running = true
is_running _ = false

pub data NodeKind : Type 0 where
  agent cell llm : NodeKind

abbrev pub is_cell : NodeKind → Bool
is_cell NodeKind.cell = true
is_cell _ = false

pub record NodeSpec : Type 0 where
  pub id : ℕ
  pub parent : Option ℕ
  pub name : Text
  pub model : Text

pub data UiEvent : Type 0 where
  text_delta : ℕ → Text → UiEvent
  tool_call_started : ℕ → Text → Text → Text → UiEvent
  tool_call_finished : ℕ → Text → Text → Status → UiEvent
  agent_spawned : NodeSpec → UiEvent
  agent_finished : ℕ → Status → UiEvent
  repl_cell_started : NodeSpec → Text → UiEvent
  repl_cell_finished : ℕ → Text → Status → UiEvent
  llm_call : NodeSpec → UiEvent
  llm_call_finished : ℕ → Status → UiEvent
  usage : ℕ → ℕ → ℕ → UiEvent
  budget : Option ℕ → ℕ → UiEvent
