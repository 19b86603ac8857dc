-- ===== src/Runtime/Calls.antt =====
-- crates/core/src/runtime.rs, `agent` and `accept`: the tool calls of one assistant turn.
use kyora.Base.{
  ℕ, zero, suc, Bool, true, false, not, ◌&&◌, Option, none, some, List, [], ◌∷◌, ◌++◌, Text, codes,
  decimal, ltb, length, if◌then◌else◌, Outcome, ok, err, panic, ◌>>=◌, expect,
}
use kyora.Base.TextMaps.{lookup_text}
use kyora.Protocol.{ContentBlock, ToolResultPart}
use kyora.Protocol.Stop.{StopReason, serialize}
use kyora.Provider.Retry.{is_some}
use kyora.Truncation.{truncate}
use package.kyora.Runtime.World.{
  Library, Answer, Check, halted, Tool, ToolOutput, error_output, text_content, CallWorld, Setting,
  Event, Loop, Calling, Run,
}

-- `Runtime::emit`
unfoldable pub emit : {V : Type 0} → Loop V → Event V → Run (Loop V)
emit l event = elim l.room [
  | zero ↦ err (codes "trace write failed")
  | suc room ↦ ok (record l { trace = l.trace ++ event ∷ []; room = room })
]

abbrev pub is_tool_use_stop : StopReason → Bool
is_tool_use_stop StopReason.tool_use = true
is_tool_use_stop _ = false

-- Why an answer of a node that was stopped is not accepted.
unfoldable pub stopped_reason : Check → Text
stopped_reason Check.timed_out = codes "the agent had timed out"
stopped_reason _ = codes "the agent was cancelled"

module _ {V : Type 0} (j : Library V) (s : Setting V) where
  -- `Runtime::accept` on a value, once its text has been read.
  unfoldable pub accept_value : V → Text → Outcome Text V → Outcome Text Answer
  accept_value schema raw (ok value) = elim (j.validate schema value) [
    | some error ↦ err (codes "result does not match the output schema: " ++ error)
    | none ↦
        if ltb s.message_chars (length raw)
        then err (codes "result exceeds " ++ (decimal s.message_chars ++ codes " characters"))
        else ok (Answer.value raw)
  ]
  accept_value schema raw (err error) = err (codes "result is not JSON: " ++ error)
  accept_value schema raw panic = panic

  -- `Runtime::accept`
  unfoldable pub accept : Option V → Answer → Outcome Text Answer
  unfolding accept_value
  accept none answer = ok answer
  accept (some schema) (Answer.text t) =
      err (codes "a task with an output schema finishes only through submit_result")
  accept (some schema) (Answer.value raw) = accept_value schema raw (j.from_str raw)

  -- The call of a tool that was found: its result, and whether it is kept whole.
  unfoldable pub perform : Tool → CallWorld → ToolOutput × Bool
  unfolding error_output
  perform tool w =
      let result =
        if not tool.mutating && w.given_up then error_output (codes "cancelled") else w.output in
      (result, not tool.truncated)

  -- The result of one call, by the tests in their order.
  unfoldable pub call_output :
      StopReason → List (Text × Text) → Bool → CallWorld → Text → Text → V → Run (ToolOutput × Bool)
  unfolding error_output perform
  call_output reason invalid committed w id name input = elim (lookup_text id invalid) [
    | some raw ↦ ok (error_output (j.invalid_json raw), false)
    | none ↦
        if not (is_tool_use_stop reason)
        then ok (error_output (codes "not executed: " ++ serialize reason), false)
        else if committed
        then ok (error_output (codes "skipped: final answer already committed"), false)
        else if halted w.before
        then ok (error_output (codes "cancelled"), false)
        else (elim (s.tools.validate name input) [
          | some error ↦ ok (error_output error, false)
          | none ↦ do tool ← expect (s.tools.get name); ok (perform tool w)
        ])
  ]

  -- Whether an answer that a tool commits is accepted.
  unfoldable pub judge : Check → Answer → Outcome Text Answer
  unfolding accept stopped_reason
  judge after answer = if halted after then err (stopped_reason after) else accept s.output answer

  unfoldable pub with_reason : ToolOutput → Text → ToolOutput
  with_reason result reason = record result {
    is_error = true;
    content =
        result.content
        ++ ToolResultPart.text (codes "\nfinal answer not accepted: " ++ reason) ∷ [];
  }

  unfoldable pub conclude : ToolOutput → Outcome Text Answer → Run (Option Answer × ToolOutput)
  unfolding with_reason
  conclude result (ok committed) = ok (some committed, result)
  conclude result (err reason) = ok (none, with_reason result reason)
  conclude result panic = panic

  -- The first committed answer of the turn, and the result that says why one was not accepted.
  unfoldable pub commit :
      Check → Option Answer → Option Answer → ToolOutput → Run (Option Answer × ToolOutput)
  unfolding conclude judge
  commit after (some answer) offered result = ok (some answer, result)
  commit after none none result = ok (none, result)
  commit after none (some offered) result = conclude result (judge after offered)

  -- `truncate` unless the tool's result is kept whole.
  unfoldable pub shown : Bool → List ToolResultPart → Run Text
  unfolding text_content
  shown true parts = ok (text_content parts)
  shown false parts = expect (truncate (text_content parts) s.tool_output_chars)

  -- The input that the trace records for a call.
  unfoldable pub traced_input : Option Text → V → V
  traced_input none input = input
  traced_input (some raw) input = j.string raw

  -- The result is recorded and kept for the next user message.
  unfoldable pub report : Text → Loop V → Calling V → Option Answer → Bool → Text → Run (Calling V)
  unfolding emit
  report id called c final_answer is_error content = do
    told ← emit called (Event.tool_result id content is_error)
    ok (record {
      loop = told;
      results =
          c.results ++ ContentBlock.tool_result id (ToolResultPart.text content ∷ []) is_error ∷ [];
      final_answer = final_answer;
    })

  -- What follows the tool's output: its answer is judged and its text is cut.
  unfoldable pub conclude_call :
      CallWorld → Text → Loop V → Calling V → ToolOutput × Bool → Run (Calling V)
  unfolding commit shown report
  conclude_call w id called c (output, whole) = do
    (final_answer, result) ← commit w.after c.final_answer output.final_answer output
    content ← shown whole result.content
    report id called c final_answer result.is_error content

  -- One round of the loop over the tool uses.
  unfoldable pub call_one :
      StopReason → List (Text × Text) → CallWorld → (Text × Text × V) → Calling V → Run (Calling V)
  unfolding emit call_output conclude_call traced_input
  call_one reason invalid w (id, name, input) c = do
    called ← emit c.loop (Event.tool_call id name (traced_input (lookup_text id invalid) input))
    out ← call_output reason invalid (is_some c.final_answer) w id name input
    conclude_call w id called c out

  -- The loop over the tool uses; the calls' worlds are numbered.
  unfoldable pub call_all :
      StopReason
      → List (Text × Text)
      → (ℕ → CallWorld)
      → List (Text × Text × V)
      → Calling V
      → Run (Calling V)
  unfolding call_one
  call_all reason invalid worlds [] c = ok c
  call_all reason invalid worlds (asked ∷ more) c =
      let rest = λ (next : Calling V). call_all reason invalid (λ n. worlds (suc n)) more next in
      call_one reason invalid (worlds 0) asked c >>= rest
