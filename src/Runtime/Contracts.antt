-- ===== src/Runtime/Contracts.antt =====
-- crates/core/src/runtime.rs, `agent` and `accept`: a child that owes a result by a schema.
use kyora.Base.{
  ℕ, suc, ◌≤◌, ◌≡◌, refl, ◌≢◌, sym, Bool, true, false, not, Option, none, some, List, [], ◌∷◌, Text,
  Outcome, ok, err, panic, ◌>>=◌, >>=-eq-ok, arith, length, Bool-cases, inl, inr,
}
use kyora.Base.TextMaps.{lookup_text}
use kyora.Protocol.{ModelResponse, tool_uses, text_of, tool_uses_of}
use kyora.Protocol.Stop.{StopReason}
use kyora.Mailbox.{Mailbox, Status, Batch, is_empty, new_turn}
use kyora.Provider.Retry.{is_some}
use package.kyora.Runtime.World.{
  Library, Setting, Event, Loop, Calling, Next, Run, Answer, Round, Attempted, CallError, CallWorld,
  Check, ToolOutput,
}
use package.kyora.Runtime.Calls.{
  emit, accept, accept_value, judge, conclude, commit, shown, report, conclude_call, call_one,
  call_all, call_output, traced_input,
}
use package.kyora.Runtime.Deliveries.{size, wait_idle}
use package.kyora.Runtime.Turns.{
  without_result, after_wait, end_turn, branch, settle_turn, admitted, responded, try, turn, turns,
  begin, agent, ask_larger, find_invalid, status_for, go_on, reply, no_results,
}
use package.kyora.Runtime.Steps.{
  Onward, more, over, turns-first, go_on-Onward, admitted-Admission, responded-noted, wants_larger,
}

module _ {V : Type 0} (j : Library V) (s : Setting V) (schema : V) where
  -- An answer that keeps the contract: a JSON text that the schema accepts and that fits a message.
  pub record Met (answer : Answer) : Type 0 where
    pub raw : Text
    pub value : V
    pub is_value : answer ≡ Answer.value raw
    pub parsed : j.from_str raw ≡ ok value
    pub valid : j.validate schema value ≡ none
    pub fits : length raw ≤ s.message_chars

  accept_value-Met :
      (raw : Text) (o : Outcome Text V) (a : Answer)
      → j.from_str raw ≡ o
      → accept_value j s schema raw o ≡ ok a
      → Met a
  unfolding accept_value
  accept_value-Met raw (ok value) a parsed h = record {
    raw = raw;
    value = value;
    is_value = ground arith;
    parsed = parsed;
    valid = ground arith;
    fits = ground arith;
  }
  accept_value-Met raw (err error) a parsed h = cc
  accept_value-Met raw panic a parsed h = cc

  accept-Met : (offered a : Answer) → accept j s (some schema) offered ≡ ok a → Met a
  unfolding accept
  accept-Met (Answer.text t) a h = cc
  accept-Met (Answer.value raw) a h = accept_value-Met raw (j.from_str raw) a refl h

  module _ (owed : s.output ≡ some schema) where
    judge-Met : (after : Check) (offered a : Answer) → judge j s after offered ≡ ok a → Met a
    unfolding judge
    judge-Met after offered a h = accept-Met offered a (ground arith)

    -- What has been committed in this turn keeps the contract.
    abbrev Kept : Option Answer → Type 0
    Kept none = Unit {0}
    Kept (some a) = Met a

    conclude-Kept :
        (result : ToolOutput) (judged : Outcome Text Answer) (out : Option Answer × ToolOutput)
        → ((a : Answer) → judged ≡ ok a → Met a)
        → conclude j s result judged ≡ ok out
        → Kept out.0
    unfolding conclude
    conclude-Kept result (ok a) out met h =
        let e : out.0 ≡ some a = ground arith in rw e (met a refl)
    conclude-Kept result (err reason) out met h = let e : out.0 ≡ none = ground arith in rw e tt
    conclude-Kept result panic out met h = cc

    commit-Kept :
        (after : Check) (final offered : Option Answer) (result : ToolOutput)
        (out : Option Answer × ToolOutput)
        → Kept final
        → commit j s after final offered result ≡ ok out
        → Kept out.0
    unfolding commit
    commit-Kept after (some a) offered result out k h =
        let e : out.0 ≡ some a = ground arith in rw e k
    commit-Kept after none none result out k h = let e : out.0 ≡ none = ground arith in rw e tt
    commit-Kept after none (some offered) result out k h =
        conclude-Kept result (judge j s after offered) out (λ a. judge-Met after offered a) h

    report-final :
        (id : Text) (called : Loop V) (c c' : Calling V) (final : Option Answer) (is_error : Bool)
        (content : Text)
        → report j s id called c final is_error content ≡ ok c'
        → c'.final_answer ≡ final
    unfolding report emit
    report-final id called c c' final is_error content h = ground arith

    call_one-Kept :
        (reason : StopReason) (invalid : List (Text × Text)) (w : CallWorld) (id name : Text)
        (input : V) (c c' : Calling V)
        → Kept c.final_answer
        → call_one j s reason invalid w (id, name, input) c ≡ ok c'
        → Kept c'.final_answer
    unfolding call_one conclude_call
    call_one-Kept reason invalid w id name input c c' k h =
        let event = Event.tool_call id name (traced_input j s (lookup_text id invalid) input) in
        let output = call_output j s reason invalid (is_some c.final_answer) w id name input in
        let (called, e₁, h₁) =
          >>=-eq-ok (emit c.loop event)
            (λ called. output >>= λ out. conclude_call j s w id called c out) h in
        let (out, e₂, h₂) = >>=-eq-ok output (λ out. conclude_call j s w id called c out) h₁ in
        let (result, whole) = out in
        let (done, e₃, h₃) =
          >>=-eq-ok (commit j s w.after c.final_answer result.final_answer result)
            (λ done. shown j s whole (done.1).content >>= λ content.
              report j s id called c done.0 (done.1).is_error content)
            h₂ in
        let (content, e₄, h₄) =
          >>=-eq-ok (shown j s whole (done.1).content)
            (λ content. report j s id called c done.0 (done.1).is_error content) h₃ in
        let e = report-final id called c c' done.0 (done.1).is_error content h₄ in
        rw e (commit-Kept w.after c.final_answer result.final_answer result done k e₃)

    call_all-Kept :
        (reason : StopReason) (invalid : List (Text × Text)) (worlds : ℕ → CallWorld)
        (asked : List (Text × Text × V)) (c c' : Calling V)
        → Kept c.final_answer
        → call_all j s reason invalid worlds asked c ≡ ok c'
        → Kept c'.final_answer
    unfolding call_all
    call_all-Kept reason invalid worlds [] c c' k h = let e : c' ≡ c = cc in rw e k
    call_all-Kept reason invalid worlds ((id, name, input) ∷ asked) c c' k h =
        let (next, e, f) =
          >>=-eq-ok (call_one j s reason invalid (worlds 0) (id, name, input) c)
            (λ next. call_all j s reason invalid (λ n. worlds (suc n)) asked next) h in
        call_all-Kept reason invalid (λ n. worlds (suc n)) asked next c'
          (call_one-Kept reason invalid (worlds 0) id name input c next k e) f

    without_result_incomplete :
        (r : Round V) (text : Text) (l l' : Loop V)
        → without_result j s r text l ≢ ok (Next.stop Status.completed l')
    unfolding without_result
    without_result_incomplete r text l l' h = ground arith

    after_wait_incomplete :
        (r : Round V) (text : Text) (l l' : Loop V) (batch : Option Batch)
        → after_wait j s r text l batch ≢ ok (Next.stop Status.completed l')
    unfolding after_wait
    after_wait_incomplete r text l l' (some batch) h = ground arith
    after_wait_incomplete r text l l' none h = without_result_incomplete r text l l' (ground arith)

    end_turn_incomplete :
        (r : Round V) (text : Text) (l l' : Loop V)
        → end_turn j s r text l ≢ ok (Next.stop Status.completed l')
    unfolding end_turn
    end_turn_incomplete r text l l' h =
        let answered = record l { answer = Answer.text text } in
        let (batch, m) =
          wait_idle (not (is_some s.output)) s.delivery_chars (size s) r.wakes
            (r.idle_arrive l.mailbox) in
        after_wait_incomplete r text (record answered { mailbox = m }) l' batch (ground arith)

    -- Only an accepted answer completes the node.
    branch_incomplete :
        (reason : StopReason) (r : Round V) (text : Text) (has_tools : Bool) (l l' : Loop V)
        → branch j s reason r text has_tools l ≢ ok (Next.stop Status.completed l')
    unfolding branch
    branch_incomplete StopReason.end_turn r text has_tools l l' h =
        end_turn_incomplete r text l l' h
    branch_incomplete StopReason.max_tokens r text true l l' h = cc
    branch_incomplete StopReason.max_tokens r text false l l' h = ground arith
    branch_incomplete _ r text has_tools l l' h = cc

    settle_turn-Met :
        (final : Option Answer) (reason : StopReason) (r : Round V) (text : Text) (has_tools : Bool)
        (l l' : Loop V)
        → Kept final
        → settle_turn j s final reason r text has_tools l ≡ ok (Next.stop Status.completed l')
        → Met l'.answer
    unfolding settle_turn
    settle_turn-Met (some a) reason r text has_tools l l' k h =
        let e : l'.answer ≡ a = ground arith in rw e k
    settle_turn-Met none reason r text has_tools l l' k h =
        absurd (branch_incomplete reason r text has_tools l l' (ground arith))

    admitted-Met :
        (r : Round V) (response : ModelResponse V) (invalid : List (Text × Text)) (sent : ℕ)
        (l l' : Loop V)
        → admitted j s r response invalid sent l ≡ ok (Next.stop Status.completed l')
        → Met l'.answer
    admitted-Met r response invalid sent l l' h =
        let d =
          admitted-Admission j s r response invalid sent l (Next.stop Status.completed l') h in
        let assistant = reply j s response invalid in
        settle_turn-Met d.called.final_answer response.stop_reason r (text_of assistant.content)
          (not (is_empty d.called.results)) d.told l'
          (call_all-Kept response.stop_reason invalid r.calls (tool_uses assistant)
            (no_results j s d.asked) d.called tt d.calls)
          d.settled

    status_for_incomplete :
        (error : CallError) (check : Check) → status_for error check ≢ Status.completed
    unfolding status_for
    status_for_incomplete error check h = ground arith

    try-Met :
        (r : Round V) (a : Attempted V) (l l' : Loop V)
        → try j s r a l ≡ ok (Next.stop Status.completed l')
        → Met l'.answer
    unfolding try responded ask_larger
    try-Met r (Attempted.failed error check) l l' h =
        absurd (status_for_incomplete error check (ground arith))
    try-Met r (Attempted.answered response malformed) l l' h =
        let invalid = find_invalid j s (tool_uses_of response.content) malformed in
        let (noted, e, f) =
          responded-noted j s r response malformed l (Next.stop Status.completed l') h in
        elim (Bool-cases (wants_larger j s response invalid l)) [
          | inl larger ↦ absurd (ground arith)
          | inr enough ↦
              admitted-Met r response invalid (length l.history) noted l' (rw enough at f)
        ]

    turn-Met :
        (r : Round V) (l l' : Loop V)
        → turn j s r l ≡ ok (Next.stop Status.completed l')
        → Met l'.answer
    unfolding turn
    turn-Met r l l' h =
        try-Met r r.attempted (record l { mailbox = new_turn l.mailbox }) l' (ground arith)

    finished :
        (rest : Loop V → Run (Next V)) {l' : Loop V}
        → ((m : Loop V) → rest m ≡ ok (Next.stop Status.completed l') → Met l'.answer)
        → (first : Next V) → (first ≡ Next.stop Status.completed l' → Met l'.answer)
        → Onward j s rest (Next.stop Status.completed l') first
        → Met l'.answer
    finished rest later first now (more m h) = later m h
    finished rest later first now (over status m e) = now (sym e)

    turns-Met :
        (rounds : List (Round V)) (l l' : Loop V)
        → turns j s rounds l ≡ ok (Next.stop Status.completed l')
        → Met l'.answer
    unfolding turns go_on
    turns-Met [] l l' h = cc
    turns-Met (r ∷ rounds) l l' h =
        let (first, e, f) = turns-first j s r rounds l (Next.stop Status.completed l') h in
        let rest = λ (n : Loop V). turns j s rounds n in
        let later = λ (m : Loop V) (g : rest m ≡ ok (Next.stop Status.completed l')).
          turns-Met rounds m l' g in
        finished rest later first (λ d. turn-Met r l l' (rw d at e))
          (go_on-Onward j s rest first (Next.stop Status.completed l') f)

    -- An agent that owes a result by a schema completes only with an answer that keeps the contract:
    -- the text of a JSON value that the schema accepts, within the cap on a message's characters.
    pub agent-Met :
        (task : Text) (m : Mailbox) (room : ℕ) (rounds : List (Round V)) (l : Loop V)
        → agent j s task m room rounds ≡ ok (Next.stop Status.completed l)
        → Met l.answer
    unfolding agent
    agent-Met task m room rounds l h =
        let (first, e, f) = >>=-eq-ok (begin j s task m room) (λ n. turns j s rounds n) h in
        turns-Met rounds first l f
