-- ===== src/Runtime/World.antt =====
-- crates/core/src/runtime.rs: what an agent's loop meets while it runs. What other tasks, the clock,
-- the provider and the tools do is data: one `Round` for each turn of the loop. `V` stands for
-- `serde_json::Value`, and `Library` for what is asked of that library and of `tool::validate`.
use kyora.Base.{ℕ, Bool, true, false, Option, none, List, [], ◌∷◌, ◌++◌, Text, Outcome}
use kyora.Protocol.{ContentBlock, Message, ToolResultPart, ModelResponse}
use kyora.Protocol.Counters.{Usage}
use kyora.Mailbox.{Mailbox, Envelope, Status}
use kyora.Provider.{ProviderError}

pub record Library (V : Type 0) : Type 0 where
  pub empty_object : V
  pub string : Text → V
  pub from_str : Text → Outcome Text V
  pub to_string : V → Text
  pub invalid_json : Text → Text
  pub validate : V → V → Option Text

-- `Answer`; a value is the text of its JSON.
pub data Answer : Type 0 where
  text value : Text → Answer

-- `Answer::text`
unfoldable pub answer_text : Answer → Text
answer_text (Answer.text s) = s
answer_text (Answer.value s) = s

-- What is seen by `cx.stopped() || Instant::now() >= cx.deadline`, with the reason.
pub data Check : Type 0 where
  running stopped timed_out : Check

abbrev pub halted : Check → Bool
halted Check.running = false
halted Check.stopped = true
halted Check.timed_out = true

-- `NodeCtx::cancel_status`
abbrev pub cancel_status : Check → Status
cancel_status Check.timed_out = Status.timeout
cancel_status Check.stopped = Status.cancelled
cancel_status Check.running = Status.cancelled

pub record ToolOutput : Type 0 where
  pub content : List ToolResultPart
  pub is_error : Bool
  pub final_answer : Option Answer

-- `ToolOutput::error`
unfoldable pub error_output : Text → ToolOutput
error_output s = record {
  content = ToolResultPart.text s ∷ [];
  is_error = true;
  final_answer = none;
}

-- `ToolOutput::text`
unfoldable pub text_output : Text → ToolOutput
text_output s = record {
  content = ToolResultPart.text s ∷ [];
  is_error = false;
  final_answer = none;
}

-- `ToolOutput::text_content`
unfoldable pub text_content : List ToolResultPart → Text
text_content [] = []
text_content (ToolResultPart.text s ∷ parts) = s ++ text_content parts

-- What the loop asks of a tool: whether it mutates, and whether its result is cut.
pub record Tool : Type 0 where
  pub mutating : Bool
  pub truncated : Bool

-- `Toolset::get` and `Toolset::validate`, the latter with its error.
pub record Tools (V : Type 0) : Type 0 where
  pub get : Text → Option Tool
  pub validate : Text → V → Option Text

-- One tool call: the check before it, whether a read-only call is given up, what the tool returns,
-- and the check before an answer is accepted.
pub record CallWorld : Type 0 where
  pub before : Check
  pub given_up : Bool
  pub output : ToolOutput
  pub after : Check

-- `CallError`
pub data CallError : Type 0 where
  budget : CallError
  provider : ProviderError → CallError
  internal : Text → CallError

-- How `attempts` ends: a response with the malformed inputs by call, or an error with the check
-- that follows it.
pub data Attempted (V : Type 0) : Type 0 where
  answered : ModelResponse V → List (Text × Text) → Attempted V
  failed : CallError → Check → Attempted V

-- One turn of the loop: the checks in the order in which the loop makes them, and what arrives in
-- the mailbox before each delivery. `wakes` are the changes that wake a waiting agent; when they
-- end, its token is cancelled or its deadline passes.
pub record Round (V : Type 0) : Type 0 where
  pub head : Check
  pub attempted : Attempted V
  pub calls : ℕ → CallWorld
  pub after_calls : Check
  pub results_arrive : Mailbox → Mailbox
  pub before_end : Check
  pub idle_arrive : Mailbox → Mailbox
  pub wakes : List (Mailbox → Mailbox)
  pub after_idle : Check
  pub end_arrive : Mailbox → Mailbox

-- What is fixed while an agent runs: `limits`, `settings`, its tools, and how envelopes are shown.
pub record Setting (V : Type 0) : Type 0 where
  pub max_turns : ℕ
  pub output : Option V
  pub max_output_tokens : ℕ
  pub tool_output_chars : ℕ
  pub message_chars : ℕ
  pub delivery_chars : ℕ
  pub tools : Tools V
  pub render : Envelope → Text

-- The trace events of the loop.
pub data Event (V : Type 0) : Type 0 where
  message : Message V → Event V
  invalid_tool_input : Text → Text → Event V
  stream_reset : Event V
  tool_call : Text → Text → V → Event V
  tool_result : Text → Text → Bool → Event V
  delivered : List ℕ → Event V
  failed : CallError → Event V
  error : Text → Event V

-- The variables of the loop, the mailbox and the trace; `room` is how many more events the trace
-- takes before a write fails.
pub record Loop (V : Type 0) : Type 0 where
  pub history : List (Message V)
  pub turns : ℕ
  pub answer : Answer
  pub previous : Option (Usage × ℕ)
  pub output_cap : ℕ
  pub invalid_retry : Bool
  pub reminded : Bool
  pub mailbox : Mailbox
  pub trace : List (Event V)
  pub room : ℕ

-- The variables that the calls of a turn change.
pub record Calling (V : Type 0) : Type 0 where
  pub loop : Loop V
  pub results : List (ContentBlock V)
  pub final_answer : Option Answer

-- A turn goes on, or the loop breaks with a status.
pub data Next (V : Type 0) : Type 0 where
  again : Loop V → Next V
  stop : Status → Loop V → Next V

-- A failed trace write ends the agent with an error; a panic is an `expect` that fails.
abbrev pub Run : Type 0 → Type 0
Run A = Outcome Text A
