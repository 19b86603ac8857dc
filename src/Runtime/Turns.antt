-- ===== src/Runtime/Turns.antt =====
-- crates/core/src/runtime.rs, `agent`: the loop of one agent.
use kyora.Base.{
  ℕ, ◌-◌, ◌*◌, min, Bool, true, false, not, ◌&&◌, Option, none, some, List, [], ◌∷◌, ◌++◌, Text,
  codes, ltb, leb, ◌==◌, length, if◌then◌else◌, ok, ◌>>=◌,
}
use kyora.Base.Words.{add32, u32_mod}
use kyora.Base.TextMaps.{lookup_text, insert_absent}
use kyora.Protocol.{ContentBlock, Message, Role, ModelResponse, tool_uses, tool_uses_of, text_of}
use kyora.Protocol.Stop.{StopReason}
use kyora.Provider.{ProviderError}
use kyora.Provider.Retry.{is_some}
use kyora.Mailbox.{Mailbox, Batch, Status, new_turn, is_empty}
use package.kyora.Runtime.World.{
  Library, Answer, Check, halted, cancel_status, CallError, Attempted, Round, Setting, Event, Loop,
  Calling, Next, Run,
}
use package.kyora.Runtime.Calls.{emit, call_all}
use package.kyora.Runtime.Deliveries.{add_message, deliver, wait_idle, user_turn, size}

-- `Runtime::status_for`
unfoldable pub status_for : CallError → Check → Status
status_for CallError.budget check = Status.budget_exhausted
status_for (CallError.provider ProviderError.cancelled) check = cancel_status check
status_for (CallError.provider (ProviderError.context_too_large _)) check = Status.context_exhausted
status_for (CallError.provider (ProviderError.http status _ _)) check =
    if status == 413 then Status.context_exhausted else Status.failed
status_for _ check = Status.failed

-- The stop reasons after which another request follows the tool results.
abbrev pub continues_after : StopReason → Bool
continues_after StopReason.tool_use = true
continues_after StopReason.pause_turn = true
continues_after StopReason.max_tokens = true
continues_after _ = false

abbrev pub is_max_tokens : StopReason → Bool
is_max_tokens StopReason.max_tokens = true
is_max_tokens _ = false

-- SUBMIT_REMINDER of agent_tools.rs
abbrev pub submit_reminder : Text
submit_reminder =
    codes
      "You have not submitted a result. Call submit_result with a result that matches its input schema; ending your turn again without it fails the task."

abbrev pub no_result : Text
no_result = codes "ended without calling submit_result"

-- The answer of a child that ends without a result.
unfoldable pub last_reply : Text → Text
last_reply [] = no_result ++ codes "."
last_reply (c ∷ t) = no_result ++ (codes ". Last reply: " ++ (c ∷ t))

-- The inputs of invalid calls are emptied.
unfoldable pub empty_invalid :
    {V : Type 0} → V → List (Text × Text) → List (ContentBlock V) → List (ContentBlock V)
empty_invalid object invalid [] = []
empty_invalid object invalid (ContentBlock.tool_use id name input ∷ bs) =
    ContentBlock.tool_use id name (if is_some (lookup_text id invalid) then object else input)
    ∷ empty_invalid object invalid bs
empty_invalid object invalid (b ∷ bs) = b ∷ empty_invalid object invalid bs

unfoldable pub emit_invalid : {V : Type 0} → List (Text × Text) → Loop V → Run (Loop V)
unfolding emit
emit_invalid {V} [] l = ok l
emit_invalid {V} ((id, raw) ∷ invalid) l =
    let rest = λ (written : Loop V). emit_invalid invalid written in
    emit l (Event.invalid_tool_input id raw) >>= rest

abbrev pub text_block : {V : Type 0} → Text → List (ContentBlock V)
text_block t = ContentBlock.text t ∷ []

module _ {V : Type 0} (j : Library V) (s : Setting V) where
  -- Calls of known tools whose inputs do not validate join the malformed ones.
  unfoldable pub find_invalid : List (Text × Text × V) → List (Text × Text) → List (Text × Text)
  unfolding insert_absent
  find_invalid [] invalid = invalid
  find_invalid ((id, name, input) ∷ uses) invalid = find_invalid uses (
      if is_some (s.tools.get name) && is_some (s.tools.validate name input)
      then insert_absent id (j.to_string input) invalid
      else invalid)

  -- A child that owes a result is reminded once, and then fails.
  unfoldable pub without_result : Round V → Text → Loop V → Run (Next V)
  unfolding user_turn emit last_reply
  without_result r text l =
      if not l.reminded
      then (do
        next ←
            user_turn s (text_block submit_reminder) true
              (record l { reminded = true; mailbox = r.end_arrive l.mailbox })
        ok (Next.again next))
      else (do
        told ← emit l (Event.error no_result)
        ok (Next.stop Status.failed (record told { answer = Answer.text (last_reply text) })))

  -- What the wait at the end of a turn brought, or nothing.
  unfoldable pub after_wait : Round V → Text → Loop V → Option Batch → Run (Next V)
  unfolding deliver without_result
  after_wait r text l (some batch) = do next ← deliver s.render [] batch l; ok (Next.again next)
  after_wait r text l none =
      if halted r.after_idle
      then ok (Next.stop (cancel_status r.after_idle) l)
      else if not (is_some s.output)
      then ok (Next.stop Status.completed l)
      else without_result r text l

  -- `StopReason::EndTurn`: what arrived is delivered, or the node ends.
  unfoldable pub end_turn : Round V → Text → Loop V → Run (Next V)
  unfolding wait_idle after_wait size
  end_turn r text l =
      let contract = is_some s.output in
      let answered = record l { answer = Answer.text text } in
      if leb s.max_turns l.turns
      then ok (Next.stop (if contract then Status.max_turns else Status.completed) answered)
      else (let (batch, m) =
            wait_idle (not contract) s.delivery_chars (size s) r.wakes (r.idle_arrive l.mailbox) in
          after_wait r text (record answered { mailbox = m }) batch)

  -- The last `match` on the stop reason.
  unfoldable pub branch : StopReason → Round V → Text → Bool → Loop V → Run (Next V)
  unfolding end_turn user_turn
  branch StopReason.tool_use r text has_tools l = ok (Next.again l)
  branch StopReason.pause_turn r text has_tools l = ok (Next.again l)
  branch StopReason.end_turn r text has_tools l = end_turn r text l
  branch StopReason.max_tokens r text true l = ok (Next.again l)
  branch StopReason.max_tokens r text false l = do
    next ←
        user_turn s (text_block (codes "continue")) (ltb l.turns s.max_turns)
          (record l { mailbox = r.end_arrive l.mailbox })
    ok (Next.again next)
  branch StopReason.model_context_window_exceeded r text has_tools l =
      ok (Next.stop Status.context_exhausted l)
  branch StopReason.refusal r text has_tools l = ok (Next.stop Status.refused l)
  branch StopReason.stop_sequence r text has_tools l = ok (Next.stop Status.failed l)
  branch (StopReason.other _) r text has_tools l = ok (Next.stop Status.failed l)

  -- After the tool results: an accepted answer ends the node, then a stop does.
  unfoldable pub settle_turn :
      Option Answer → StopReason → Round V → Text → Bool → Loop V → Run (Next V)
  unfolding branch
  settle_turn (some final) reason r text has_tools l =
      ok (Next.stop Status.completed (record l { answer = final }))
  settle_turn none reason r text has_tools l =
      if halted r.before_end
      then ok (Next.stop (cancel_status r.before_end) l)
      else branch reason r text has_tools l

  -- The results follow their calls in one user message.
  unfoldable pub give_results :
      List (ContentBlock V) → Option Answer → StopReason → Round V → Loop V → Run (Loop V)
  unfolding user_turn
  give_results [] final_answer reason r l = ok l
  give_results (b ∷ results) final_answer reason r l =
      let continues =
        not (is_some final_answer)
        && (not (halted r.after_calls) && (ltb l.turns s.max_turns && continues_after reason)) in
      user_turn s (b ∷ results) continues (record l { mailbox = r.results_arrive l.mailbox })

  -- The assistant message of a response.
  unfoldable pub reply : ModelResponse V → List (Text × Text) → Message V
  unfolding empty_invalid
  reply response invalid = record {
    role = Role.assistant;
    content = empty_invalid j.empty_object invalid response.content;
  }

  -- The variables of a turn that counts.
  unfoldable pub count_turn : ModelResponse V → Text → ℕ → Loop V → Loop V
  unfolding add32
  count_turn response text sent l = record l {
    invalid_retry = false;
    output_cap = s.max_output_tokens;
    previous = some (response.usage, sent);
    turns = add32 l.turns 1;
    answer = if is_empty text then l.answer else Answer.text text;
  }

  abbrev pub no_results : Loop V → Calling V
  no_results l = record { loop = l; results = []; final_answer = none }

  -- The turn of an admitted response.
  unfoldable pub admitted :
      Round V → ModelResponse V → List (Text × Text) → ℕ → Loop V → Run (Next V)
  unfolding reply count_turn add_message call_all give_results settle_turn text_of
  admitted r response invalid sent l = do
    let assistant = reply response invalid
    let text = text_of assistant.content
    asked ← add_message assistant (count_turn response text sent l)
    called ←
        call_all j s response.stop_reason invalid r.calls (tool_uses assistant) (no_results asked)
    told ← give_results called.results called.final_answer response.stop_reason r called.loop
    settle_turn called.final_answer response.stop_reason r text (not (is_empty called.results)) told

  -- Another request with a larger output cap.
  unfoldable pub ask_larger : Loop V → Run (Next V)
  unfolding emit
  ask_larger l = do
    next ←
        emit (record l { invalid_retry = true; output_cap = min (l.output_cap * 2) (u32_mod - 1) })
          Event.stream_reset
    ok (Next.again next)

  -- A response with malformed inputs that hit the output cap is asked for again, once.
  unfoldable pub responded : Round V → ModelResponse V → List (Text × Text) → Loop V → Run (Next V)
  unfolding find_invalid emit_invalid ask_larger admitted
  responded r response malformed l = do
    let invalid = find_invalid (tool_uses_of response.content) malformed
    noted ← emit_invalid invalid l
    if not (is_empty invalid) && (is_max_tokens response.stop_reason && not l.invalid_retry)
        then ask_larger noted
        else admitted r response invalid (length l.history) noted

  -- What a turn makes of the request's outcome.
  unfoldable pub try : Round V → Attempted V → Loop V → Run (Next V)
  unfolding responded emit status_for
  try r (Attempted.answered response malformed) l = responded r response malformed l
  try r (Attempted.failed error check) l = do
    told ← emit l (Event.failed error)
    ok (Next.stop (status_for error check) told)

  -- One turn of the loop.
  unfoldable pub turn : Round V → Loop V → Run (Next V)
  unfolding try new_turn
  turn r l =
      if halted r.head
      then ok (Next.stop (cancel_status r.head) l)
      else if leb s.max_turns l.turns
      then ok (Next.stop Status.max_turns l)
      else try r r.attempted (record l { mailbox = new_turn l.mailbox })

  unfoldable pub go_on : (Loop V → Run (Next V)) → Next V → Run (Next V)
  go_on rest (Next.again l) = rest l
  go_on rest (Next.stop status l) = ok (Next.stop status l)

  -- The loop, over the turns that the world offers.
  unfoldable pub turns : List (Round V) → Loop V → Run (Next V)
  unfolding turn go_on
  turns [] l = ok (Next.again l)
  turns (r ∷ rounds) l = let rest = λ (next : Loop V). turns rounds next in turn r l >>= go_on rest

  -- The variables before the task is recorded.
  unfoldable pub start : Mailbox → ℕ → Loop V
  start m room = record {
    history = [];
    turns = 0;
    answer = Answer.text [];
    previous = none;
    output_cap = s.max_output_tokens;
    invalid_retry = false;
    reminded = false;
    mailbox = m;
    trace = [];
    room = room;
  }

  -- The first user message: the task and what was sent before it.
  unfoldable pub begin : Text → Mailbox → ℕ → Run (Loop V)
  unfolding user_turn start
  begin task m room = user_turn s (text_block task) true (start m room)

  -- `Runtime::agent`, over the turns that the world offers.
  unfoldable pub agent : Text → Mailbox → ℕ → List (Round V) → Run (Next V)
  unfolding begin turns
  agent task m room rounds = do l ← begin task m room; turns rounds l
