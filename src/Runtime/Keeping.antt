-- ===== src/Runtime/Keeping.antt =====
-- crates/core/src/runtime.rs: what the steps of the loop leave alone, and what they add.
use kyora.Base.{
  ℕ, suc, ◌≡◌, refl, ap, ◌∙◌, Bool, true, false, not, ◌||◌, Option, List, [], ◌∷◌, ◌++◌, map, Text,
  ok, ◌>>=◌, >>=-eq-ok, arith, ltb, if◌then◌else◌, Bool-cases, inl, inr, codes,
}
use mathlib.Core.List.{append-nil, append_assoc}
use kyora.Protocol.{ContentBlock, Message, Role, ToolResultPart}
use kyora.Protocol.Stop.{StopReason}
use kyora.Mailbox.{Envelope, Batch, Mailbox, is_empty, take}
use kyora.Mailbox.Texts.{more}
use kyora.Base.TextMaps.{lookup_text}
use kyora.Provider.Retry.{is_some}
use package.kyora.Runtime.World.{
  Library, CallWorld, Setting, Event, Loop, Calling, Answer, ToolOutput,
}
use package.kyora.Runtime.Calls.{
  emit, call_one, call_all, report, conclude_call, call_output, commit, shown, traced_input,
}
use package.kyora.Runtime.Deliveries.{
  emit_quietly, ids_of, add_message, deliver, delivery_blocks, user_turn, size,
}
use package.kyora.Runtime.Conversation.{result_ids, use_ids, result_ids-append, use_ids-append}

texts_ids :
    {V : Type 0} (render : Envelope → Text) (es : List Envelope) (end : List (ContentBlock V))
    → (result_ids (map (λ e. ContentBlock.text (render e)) es ++ end) ≡ result_ids end)
      × (use_ids (map (λ e. ContentBlock.text (render e)) es ++ end) ≡ use_ids end)
texts_ids render [] end = (refl, refl)
texts_ids render (e ∷ es) end = texts_ids render es end

-- A delivery neither calls a tool nor answers a call.
delivery_blocks_ids :
    (V : Type 0) (render : Envelope → Text) (b : Batch)
    → (result_ids {V = V} (delivery_blocks render b) ≡ [])
      × (use_ids {V = V} (delivery_blocks render b) ≡ [])
unfolding delivery_blocks
delivery_blocks_ids V render b =
    let t = texts_ids {V = V} render b.taken (
      if ltb 0 b.queued
      then ContentBlock.text (codes "[" ++ (more b.queued ++ codes "]")) ∷ []
      else []) in
    ground arith

module _ {V : Type 0} where
  -- What a trace record leaves alone.
  pub record Same (l l' : Loop V) : Type 0 where
    pub history : l'.history ≡ l.history
    pub turns : l'.turns ≡ l.turns
    pub retried : l'.invalid_retry ≡ l.invalid_retry

  pub emit-Same : (l l' : Loop V) (e : Event V) → emit l e ≡ ok l' → Same l l'
  unfolding emit
  emit-Same l l' e h = ground arith

  pub emit_quietly-Same : (l : Loop V) (e : Event V) → Same l (emit_quietly l e)
  unfolding emit_quietly
  emit_quietly-Same l e = ground arith

  -- One message more.
  pub record Added (l l' : Loop V) (m : Message V) : Type 0 where
    pub history : l'.history ≡ l.history ++ m ∷ []
    pub turns : l'.turns ≡ l.turns
    pub retried : l'.invalid_retry ≡ l.invalid_retry

  pub add_message-Added : (l l' : Loop V) (m : Message V) → add_message m l ≡ ok l' → Added l l' m
  unfolding add_message emit
  add_message-Added l l' m h = ground arith

  -- A user message with given calls and answers is appended.
  pub record Spoken (l l' : Loop V) (content : List (ContentBlock V)) : Type 0 where
    pub message : Message V
    pub added : Added l l' message
    pub by_user : message.role ≡ Role.user
    pub results : result_ids message.content ≡ result_ids content
    pub uses : use_ids message.content ≡ use_ids content

  pub deliver-Spoken :
      (render : Envelope → Text) (content : List (ContentBlock V)) (b : Batch) (l l' : Loop V)
      → deliver render content b l ≡ ok l'
      → Spoken l l' content
  unfolding deliver
  deliver-Spoken render content b l l' h =
      let more_content = content ++ delivery_blocks {V = V} render b in
      let m : Message V = record { role = Role.user; content = more_content } in
      let recorded =
        if is_empty b.taken then l else emit_quietly l (Event.delivered (ids_of b.taken)) in
      let same : Same l recorded =
        ground (arith, emit_quietly-Same l (Event.delivered (ids_of b.taken))) in
      let a = add_message-Added recorded l' m h in
      let (results, uses) = delivery_blocks_ids V render b in
      record {
        message = m;
        added = ground (arith, a, same);
        by_user = refl;
        results =
            result_ids-append content (delivery_blocks render b)
            ∙ ap (λ ids. result_ids content ++ ids) results
            ∙ append-nil (result_ids content);
        uses =
            use_ids-append content (delivery_blocks render b)
            ∙ ap (λ ids. use_ids content ++ ids) uses
            ∙ append-nil (use_ids content);
      }

  say-Spoken :
      (content : List (ContentBlock V)) (l l' : Loop V)
      → add_message (record { role = Role.user; content = content }) l ≡ ok l'
      → Spoken l l' content
  say-Spoken content l l' h = record {
    message = record { role = Role.user; content = content };
    added = add_message-Added l l' (record { role = Role.user; content = content }) h;
    by_user = refl;
    results = refl;
    uses = refl;
  }

  -- The mailbox is no part of what is said.
  in_mailbox :
      (m : Mailbox) (content : List (ContentBlock V)) (l l' : Loop V)
      → Spoken (record l { mailbox = m }) l' content
      → Spoken l l' content
  in_mailbox m content l l' k = record {
    message = k.message;
    added = ground (arith, k.added);
    by_user = k.by_user;
    results = k.results;
    uses = k.uses;
  }

  pub user_turn-Spoken :
      (s : Setting V) (content : List (ContentBlock V)) (delivers : Bool) (l l' : Loop V)
      → user_turn s content delivers l ≡ ok l'
      → Spoken l l' content
  unfolding user_turn
  user_turn-Spoken s content false l l' h = say-Spoken content l l' h
  user_turn-Spoken s content true l l' h =
      let (batch, m) = take l.mailbox s.delivery_chars (λ _. true) (size s) in
      let taken = record l { mailbox = m } in
      in_mailbox m content l l'
        (elim (Bool-cases (not (is_empty batch.taken) || ltb 0 batch.queued)) [
          | inl arrived ↦ deliver-Spoken s.render content batch taken l' (rw arrived at h)
          | inr nothing ↦ say-Spoken content taken l' (rw nothing at h)
        ])

  -- What the calls of a turn leave alone, and the results that they add.
  pub record Called (c c' : Calling V) (ids : List Text) : Type 0 where
    pub results : result_ids c'.results ≡ result_ids c.results ++ ids
    pub uses : use_ids c'.results ≡ use_ids c.results
    pub same : Same c.loop c'.loop

  module _ (j : Library V) (s : Setting V) where
    report-Called :
        (id : Text) (called : Loop V) (c c' : Calling V) (final : Option Answer) (is_error : Bool)
        (content : Text)
        → Same c.loop called
        → report j s id called c final is_error content ≡ ok c'
        → Called c c' (id ∷ [])
    unfolding report
    report-Called id called c c' final is_error content k h =
        let event : Event V = Event.tool_result id content is_error in
        let block : List (ContentBlock V) =
          ContentBlock.tool_result id (ToolResultPart.text content ∷ []) is_error ∷ [] in
        let (told, e, done) =
          >>=-eq-ok (emit called event)
            (λ told.
              ok (record { loop = told; results = c.results ++ block; final_answer = final }))
            h in
        ground (
          arith,
          done,
          emit-Same called told event e,
          result_ids-append c.results block,
          use_ids-append c.results block,
          append-nil (use_ids c.results),
        )

    conclude_call-Called :
        (w : CallWorld) (id : Text) (called : Loop V) (c c' : Calling V) (out : ToolOutput × Bool)
        → Same c.loop called
        → conclude_call j s w id called c out ≡ ok c'
        → Called c c' (id ∷ [])
    unfolding conclude_call
    conclude_call-Called w id called c c' (output, whole) k h =
        let ((final, result), e₁, h₁) =
          >>=-eq-ok (commit j s w.after c.final_answer output.final_answer output)
            (λ (final, result). shown j s whole result.content >>= λ content.
              report j s id called c final result.is_error content)
            h in
        let (content, e₂, h₂) =
          >>=-eq-ok (shown j s whole result.content)
            (λ content. report j s id called c final result.is_error content) h₁ in
        report-Called id called c c' final result.is_error content k h₂

    call_one-Called :
        (reason : StopReason) (invalid : List (Text × Text)) (w : CallWorld) (id name : Text)
        (input : V) (c c' : Calling V)
        → call_one j s reason invalid w (id, name, input) c ≡ ok c'
        → Called c c' (id ∷ [])
    unfolding call_one
    call_one-Called reason invalid w id name input c c' h =
        let event = Event.tool_call id name (traced_input j s (lookup_text id invalid) input) in
        let output = call_output j s reason invalid (is_some c.final_answer) w id name input in
        let (called, e₁, h₁) =
          >>=-eq-ok (emit c.loop event)
            (λ called. output >>= λ out. conclude_call j s w id called c out) h in
        let (out, e₂, h₂) = >>=-eq-ok output (λ out. conclude_call j s w id called c out) h₁ in
        conclude_call-Called w id called c c' out (emit-Same c.loop called event e₁) h₂

    pub call_all-Called :
        (reason : StopReason) (invalid : List (Text × Text)) (worlds : ℕ → CallWorld)
        (asked : List (Text × Text × V)) (c c' : Calling V)
        → call_all j s reason invalid worlds asked c ≡ ok c'
        → Called c c' (map (λ u. u.0) asked)
    unfolding call_all
    call_all-Called reason invalid worlds [] c c' h =
        ground (arith, append-nil (result_ids c.results))
    call_all-Called reason invalid worlds ((id, name, input) ∷ asked) c c' h =
        let (next, e₁, h₁) =
          >>=-eq-ok (call_one j s reason invalid (worlds 0) (id, name, input) c)
            (λ next. call_all j s reason invalid (λ n. worlds (suc n)) asked next) h in
        let first = call_one-Called reason invalid (worlds 0) id name input c next e₁ in
        let rest = call_all-Called reason invalid (λ n. worlds (suc n)) asked next c' h₁ in
        record {
          results =
              rest.results
              ∙ ap (λ ids. ids ++ map (λ u. u.0) asked) first.results
              ∙ append_assoc (result_ids c.results) (id ∷ []) (map (λ u. u.0) asked);
          uses = rest.uses ∙ first.uses;
          same = ground (arith, first, rest);
        }
