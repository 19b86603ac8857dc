-- ===== src/Runtime/Answering.antt =====
-- crates/core/src/runtime.rs, `agent`: a turn leaves no tool call without its result.
use kyora.Base.{
  ◌≡◌, refl, ◌∙◌, Bool, true, false, not, ◌&&◌, Option, none, some, List, [], ◌∷◌, Text, ok, ◌>>=◌,
  >>=-eq-ok, ltb, leb, if◌then◌else◌, Bool-cases, inl, inr, codes,
}
use kyora.Protocol.{ContentBlock}
use kyora.Protocol.Stop.{StopReason}
use kyora.Mailbox.{Batch, Mailbox, Status}
use kyora.Provider.Retry.{is_some}
use package.kyora.Runtime.World.{
  Library, Setting, Event, Loop, Next, Run, Answer, Round, halted, cancel_status,
}
use package.kyora.Runtime.Calls.{emit}
use package.kyora.Runtime.Deliveries.{deliver, user_turn, size, wait_idle}
use package.kyora.Runtime.Conversation.{Conversation, result_ids, use_ids}
use package.kyora.Runtime.Turns.{
  without_result, after_wait, end_turn, branch, settle_turn, give_results, submit_reminder,
  no_result, last_reply, text_block, continues_after,
}
use package.kyora.Runtime.Keeping.{Same, Spoken, emit-Same, deliver-Spoken, user_turn-Spoken}

module _ {V : Type 0} where
  -- The variables at the end of a turn.
  abbrev pub loop_of : Next V → Loop V
  loop_of (Next.again l) = l
  loop_of (Next.stop _ l) = l

  -- The turn's end after its assistant message: the open calls are answered, and nothing is counted.
  pub record Rest (l : Loop V) (ids : List Text) (next : Next V) : Type 0 where
    pub talk : Conversation l.history ids → Conversation (loop_of next).history []
    pub turns : (loop_of next).turns ≡ l.turns
    pub retried : (loop_of next).invalid_retry ≡ l.invalid_retry

  spoken :
      (l l' : Loop V) (content : List (ContentBlock V))
      → Spoken l l' content
      → use_ids content ≡ []
      → Rest l (result_ids content) (Next.again l')
  spoken l l' content k quiet = record {
    talk = λ h.
        rw (k.added.history) (Conversation.told k.message h k.by_user k.results (k.uses ∙ quiet));
    turns = k.added.turns;
    retried = k.added.retried;
  }

  -- The loop's end, with the same history.
  quietly : (l l' : Loop V) (status : Status) → Same l l' → Rest l [] (Next.stop status l')
  quietly l l' status k = record {
    talk = λ h. rw (k.history) h;
    turns = k.turns;
    retried = k.retried;
  }

  pub unmoved : (l : Loop V) → Same l l
  unmoved l = record { history = refl; turns = refl; retried = refl }

  ends :
      (l l' : Loop V) (status : Status) (next : Next V)
      → Same l l'
      → ◌≡◌ {A = Run (Next V)} (ok (Next.stop status l')) (ok next)
      → Rest l [] next
  ends l l' status next k h =
      let e : next ≡ Next.stop status l' = cc in rw e (quietly l l' status k)

  goes_on :
      (l : Loop V) (next : Next V)
      → ◌≡◌ {A = Run (Next V)} (ok (Next.again l)) (ok next)
      → Rest l [] next
  goes_on l next h =
      let e : next ≡ Next.again l = cc in
      rw e (record { talk = λ c. c; turns = refl; retried = refl })

  again-eq :
      (m : Run (Loop V)) (next : Next V)
      → (m >>= λ l. ok (Next.again l)) ≡ ok next
      → (l : Loop V) × (m ≡ ok l) × (next ≡ Next.again l)
  again-eq m next h = let (l, e, f) = >>=-eq-ok m (λ l. ok (Next.again l)) h in (l, e, cc)

  module _ (j : Library V) (s : Setting V) where
    speaks :
        (content : List (ContentBlock V)) (delivers : Bool) (l : Loop V) (next : Next V)
        → use_ids content ≡ []
        → (user_turn s content delivers l >>= λ l'. ok (Next.again l')) ≡ ok next
        → Rest l (result_ids content) next
    speaks content delivers l next quiet h =
        let (l', e, f) = again-eq (user_turn s content delivers l) next h in
        rw f (spoken l l' content (user_turn-Spoken s content delivers l l' e) quiet)

    -- The flag and the mailbox are no part of the conversation.
    elsewhere :
        (l l₂ : Loop V) (ids : List Text) (next : Next V)
        → Same l l₂
        → Rest l₂ ids next
        → Rest l ids next
    elsewhere l l₂ ids next k r = record {
      talk = λ h. r.talk (rw (k.history) h);
      turns = r.turns ∙ k.turns;
      retried = r.retried ∙ k.retried;
    }

    same :
        (l : Loop V) (reminded : Bool) (answer : Answer) (m : Mailbox)
        → Same l (record l { reminded = reminded; answer = answer; mailbox = m })
    same l reminded answer m = record { history = refl; turns = refl; retried = refl }

    without_result-Rest :
        (r : Round V) (text : Text) (l : Loop V) (next : Next V)
        → without_result j s r text l ≡ ok next
        → Rest l [] next
    unfolding without_result
    without_result-Rest r text l next h = elim (Bool-cases l.reminded) [
      | inl old ↦
          let told =
            >>=-eq-ok (emit l (Event.error no_result))
              (λ told.
                ok (
                  Next.stop Status.failed (record told { answer = Answer.text (last_reply text) })))
              (simp old at h) in
          let k = emit-Same l told.0 (Event.error no_result) told.1 in
          let e : next
              ≡ Next.stop Status.failed
                  (record (told.0) { answer = Answer.text (last_reply text) }) =
            cc (told.2) in
          rw e (record { talk = λ c. rw (k.history) c; turns = k.turns; retried = k.retried })
      | inr fresh ↦
          let m = r.end_arrive l.mailbox in
          elsewhere l (record l { reminded = true; mailbox = m }) [] next (same l true l.answer m)
            (speaks (text_block submit_reminder) true (record l { reminded = true; mailbox = m })
              next refl (simp fresh at h))
    ]

    after_wait-Rest :
        (r : Round V) (text : Text) (l : Loop V) (batch : Option Batch) (next : Next V)
        → after_wait j s r text l batch ≡ ok next
        → Rest l [] next
    unfolding after_wait
    after_wait-Rest r text l (some batch) next h =
        let (l', e, f) = again-eq (deliver s.render [] batch l) next h in
        rw f (spoken l l' [] (deliver-Spoken s.render [] batch l l' e) refl)
    after_wait-Rest r text l none next h = elim (Bool-cases (halted r.after_idle)) [
      | inl ended ↦ ends l l (cancel_status r.after_idle) next (unmoved l) (rw ended at h)
      | inr alive ↦ elim (Bool-cases (is_some s.output)) [
        | inl contract ↦ without_result-Rest r text l next (rw (alive, contract) at h)
        | inr free ↦ ends l l Status.completed next (unmoved l) (rw (alive, free) at h)
      ]
    ]

    end_turn-Rest :
        (r : Round V) (text : Text) (l : Loop V) (next : Next V)
        → end_turn j s r text l ≡ ok next
        → Rest l [] next
    unfolding end_turn
    end_turn-Rest r text l next h =
        let answered = record l { answer = Answer.text text } in
        let (batch, m) =
          wait_idle (not (is_some s.output)) s.delivery_chars (size s) r.wakes
            (r.idle_arrive l.mailbox) in
        elim (Bool-cases (leb s.max_turns l.turns)) [
          | inl last ↦
              ends l answered (if is_some s.output then Status.max_turns else Status.completed) next
                (same l l.reminded (Answer.text text) l.mailbox) (simp last at h)
          | inr more ↦
              elsewhere l (record answered { mailbox = m }) [] next
                (same l l.reminded (Answer.text text) m)
                (after_wait-Rest r text (record answered { mailbox = m }) batch next
                  (simp more at h))
        ]

    branch-Rest :
        (reason : StopReason) (r : Round V) (text : Text) (has_tools : Bool) (l : Loop V)
        (next : Next V)
        → branch j s reason r text has_tools l ≡ ok next
        → Rest l [] next
    unfolding branch
    branch-Rest StopReason.tool_use r text has_tools l next h = goes_on l next h
    branch-Rest StopReason.pause_turn r text has_tools l next h = goes_on l next h
    branch-Rest StopReason.end_turn r text has_tools l next h = end_turn-Rest r text l next h
    branch-Rest StopReason.max_tokens r text true l next h = goes_on l next h
    branch-Rest StopReason.max_tokens r text false l next h =
        let m = r.end_arrive l.mailbox in
        elsewhere l (record l { mailbox = m }) [] next (same l l.reminded l.answer m)
          (speaks (text_block (codes "continue")) (ltb l.turns s.max_turns)
            (record l { mailbox = m }) next refl h)
    branch-Rest StopReason.model_context_window_exceeded r text has_tools l next h =
        ends l l Status.context_exhausted next (unmoved l) h
    branch-Rest StopReason.refusal r text has_tools l next h =
        ends l l Status.refused next (unmoved l) h
    branch-Rest StopReason.stop_sequence r text has_tools l next h =
        ends l l Status.failed next (unmoved l) h
    branch-Rest (StopReason.other _) r text has_tools l next h =
        ends l l Status.failed next (unmoved l) h

    pub settle_turn-Rest :
        (final : Option Answer) (reason : StopReason) (r : Round V) (text : Text) (has_tools : Bool)
        (l : Loop V) (next : Next V)
        → settle_turn j s final reason r text has_tools l ≡ ok next
        → Rest l [] next
    unfolding settle_turn
    settle_turn-Rest (some final) reason r text has_tools l next h =
        ends l (record l { answer = final }) Status.completed next
          (same l l.reminded final l.mailbox) h
    settle_turn-Rest none reason r text has_tools l next h =
        elim (Bool-cases (halted r.before_end)) [
          | inl ended ↦ ends l l (cancel_status r.before_end) next (unmoved l) (rw ended at h)
          | inr alive ↦ branch-Rest reason r text has_tools l next (rw alive at h)
        ]

    -- The results of a turn go into one user message; without calls there is none.
    pub give_results-Rest :
        (results : List (ContentBlock V)) (final : Option Answer) (reason : StopReason)
        (r : Round V) (l l' : Loop V)
        → use_ids results ≡ []
        → give_results j s results final reason r l ≡ ok l'
        → Rest l (result_ids results) (Next.again l')
    unfolding give_results
    give_results-Rest [] final reason r l l' quiet h = goes_on l (Next.again l') cc
    give_results-Rest (b ∷ results) final reason r l l' quiet h =
        let m = r.results_arrive l.mailbox in
        let given = record l { mailbox = m } in
        let continues =
          not (is_some final)
          && (not (halted r.after_calls) && (ltb l.turns s.max_turns && continues_after reason)) in
        elsewhere l given (result_ids (b ∷ results)) (Next.again l') (same l l.reminded l.answer m)
          (spoken given l' (b ∷ results) (user_turn-Spoken s (b ∷ results) continues given l' h)
            quiet)
