-- ===== src/Runtime/Replies.antt =====
-- crates/core/src/runtime.rs, `agent`: what a turn adds to the conversation and to its counters.
use kyora.Base.{
  ℕ, ◌<◌, ◌≡◌, refl, ap, ◌∙◌, true, false, not, List, [], ◌∷◌, Text, ok, >>=-eq-ok, arith, length,
  leb, Bool-cases, inl, inr,
}
use kyora.Base.Words.{add32}
use kyora.Protocol.{ModelResponse, tool_uses, tool_uses_of, text_of}
use kyora.Mailbox.{Mailbox, Status, is_empty, new_turn}
use package.kyora.Runtime.World.{
  Library, Setting, Event, Loop, Next, Run, Round, Attempted, halted, cancel_status,
}
use package.kyora.Runtime.Calls.{emit}
use package.kyora.Runtime.Conversation.{Conversation, result_ids, use_ids, ids-tool_uses_of}
use package.kyora.Runtime.Turns.{
  admitted, responded, turn, find_invalid, emit_invalid, status_for, ask_larger, try, reply,
  count_turn, no_results,
}
use package.kyora.Runtime.Steps.{admitted-Admission, responded-noted, wants_larger}
use package.kyora.Runtime.Keeping.{Same, emit-Same, add_message-Added, call_all-Called}
use package.kyora.Runtime.Answering.{loop_of, unmoved, settle_turn-Rest, give_results-Rest}

module _ {V : Type 0} (j : Library V) (s : Setting V) where
  -- A turn that was counted.
  pub record Counted (l : Loop V) (next : Next V) : Type 0 where
    pub talk : Conversation l.history [] → Conversation (loop_of next).history []
    pub turns : (loop_of next).turns ≡ add32 l.turns 1
    pub retried : (loop_of next).invalid_retry ≡ false

  admitted-Counted :
      (r : Round V) (response : ModelResponse V) (invalid : List (Text × Text)) (sent : ℕ)
      (l : Loop V) (next : Next V)
      → admitted j s r response invalid sent l ≡ ok next
      → Counted l next
  unfolding reply count_turn tool_uses
  admitted-Counted r response invalid sent l next h =
      let d = admitted-Admission j s r response invalid sent l next h in
      let assistant = reply j s response invalid in
      let text = text_of assistant.content in
      let reason = response.stop_reason in
      let a =
        add_message-Added (count_turn j s response text sent l) d.asked assistant d.recorded in
      let k =
        call_all-Called j s reason invalid r.calls (tool_uses assistant) (no_results j s d.asked)
          d.called d.calls in
      let answers : result_ids d.called.results ≡ use_ids assistant.content =
        k.results ∙ ids-tool_uses_of assistant.content in
      let g =
        give_results-Rest j s d.called.results d.called.final_answer reason r d.called.loop d.told
          k.uses d.given in
      let t =
        settle_turn-Rest j s d.called.final_answer reason r text (not (is_empty d.called.results))
          d.told next d.settled in
      record {
        talk = λ c. t.talk (
            g.talk (rw (k.same.history, a.history, answers) (Conversation.asked assistant c refl)));
        turns = t.turns ∙ g.turns ∙ k.same.turns ∙ a.turns;
        retried = t.retried ∙ g.retried ∙ k.same.retried ∙ a.retried;
      }

  -- A turn that asks again with a larger output cap.
  pub record Retried (l : Loop V) (next : Next V) : Type 0 where
    pub same : Same l (record (loop_of next) { invalid_retry = l.invalid_retry })
    pub before : l.invalid_retry ≡ false
    pub after : (loop_of next).invalid_retry ≡ true

  emit_invalid-Same :
      (invalid : List (Text × Text)) (l l' : Loop V) → emit_invalid invalid l ≡ ok l' → Same l l'
  unfolding emit_invalid
  emit_invalid-Same [] l l' h = ground arith
  emit_invalid-Same ((id, raw) ∷ invalid) l l' h =
      let event = Event.invalid_tool_input id raw in
      let (m, e, f) = >>=-eq-ok (emit l event) (λ m. emit_invalid invalid m) h in
      ground (arith, emit-Same l m event e, emit_invalid-Same invalid m l' f)

  ask_larger-Retried :
      (l noted : Loop V) (next : Next V)
      → Same l noted
      → l.invalid_retry ≡ false
      → ask_larger j s noted ≡ ok next
      → Retried l next
  unfolding ask_larger emit
  ask_larger-Retried l noted next k fresh h = ground arith

  from_Same : (l l₂ : Loop V) (next : Next V) → Same l l₂ → Counted l₂ next → Counted l next
  from_Same l l₂ next k c = record {
    talk = λ h. c.talk (rw (k.history) h);
    turns = c.turns ∙ ap (λ n. add32 n 1) k.turns;
    retried = c.retried;
  }

  -- A turn: the calls that were open are answered, and it counts or was allowed.
  pub data Turned (l : Loop V) : Next V → Type 0 where
    ended : (status : Status) (l' : Loop V) → Same l l' → Turned l (Next.stop status l')
    counted : (next : Next V) → l.turns < s.max_turns → Counted l next → Turned l next
    retried : (next : Next V) → l.turns < s.max_turns → Retried l next → Turned l next

  stops :
      (l l' : Loop V) (status : Status) (next : Next V)
      → Same l l'
      → ◌≡◌ {A = Run (Next V)} (ok (Next.stop status l')) (ok next)
      → Turned l next
  stops l l' status next k h =
      let e : next ≡ Next.stop status l' = cc in rw e (Turned.ended status l' k)

  responded-Turned :
      (r : Round V) (response : ModelResponse V) (malformed : List (Text × Text)) (l : Loop V)
      (next : Next V)
      → l.turns < s.max_turns
      → responded j s r response malformed l ≡ ok next
      → Turned l next
  responded-Turned r response malformed l next fits h =
      let invalid = find_invalid j s (tool_uses_of response.content) malformed in
      let (noted, e, f) = responded-noted j s r response malformed l next h in
      let k = emit_invalid-Same invalid l noted e in
      elim (Bool-cases (wants_larger j s response invalid l)) [
        | inl larger ↦
            Turned.retried next fits
              (ask_larger-Retried l noted next k (ground arith) (rw larger at f))
        | inr enough ↦ Turned.counted next fits (
            from_Same l noted next k
              (admitted-Counted r response invalid (length l.history) noted next (rw enough at f)))
      ]

  open_mailbox :
      (l : Loop V) (m : Mailbox) (next : Next V)
      → Turned (record l { mailbox = m }) next
      → Turned l next
  open_mailbox l m next (ended status l' k) = Turned.ended status l' (ground (arith, k))
  open_mailbox l m next (counted next' fits c) =
      Turned.counted next' fits (record { talk = c.talk; turns = c.turns; retried = c.retried })
  open_mailbox l m next (retried next' fits a) =
      Turned.retried next' fits
        (record { same = ground (arith, a); before = a.before; after = a.after })

  tried :
      (r : Round V) (a : Attempted V) (l : Loop V) (next : Next V)
      → l.turns < s.max_turns
      → try j s r a l ≡ ok next
      → Turned l next
  unfolding try
  tried r (Attempted.failed error check) l next fits h =
      let (told, e, f) =
        >>=-eq-ok (emit l (Event.failed error))
          (λ told. ok (Next.stop (status_for error check) told)) h in
      stops l told (status_for error check) next (emit-Same l told (Event.failed error) e) f
  tried r (Attempted.answered response malformed) l next fits h =
      responded-Turned r response malformed l next fits h

  pub turn-Turned :
      (r : Round V) (l : Loop V) (next : Next V) → turn j s r l ≡ ok next → Turned l next
  unfolding turn
  turn-Turned r l next h = elim (Bool-cases (halted r.head)) [
    | inl over ↦ stops l l (cancel_status r.head) next (unmoved l) (rw over at h)
    | inr alive ↦ elim (Bool-cases (leb s.max_turns l.turns)) [
      | inl last ↦ stops l l Status.max_turns next (unmoved l) (simp (alive, last) at h)
      | inr more ↦
          let m = new_turn l.mailbox in
          open_mailbox l m next (
            tried r r.attempted (record l { mailbox = m }) next (ground arith)
              (simp (alive, more) at h))
    ]
  ]
