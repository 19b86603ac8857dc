-- ===== src/Runtime/Steps.antt =====
-- crates/core/src/runtime.rs, `agent`: the steps of a turn that succeeded, one by one.
use kyora.Base.{
  ℕ, Bool, not, ◌&&◌, ◌≡◌, List, ◌∷◌, Text, ok, ◌>>=◌, >>=-eq-ok, length, if◌then◌else◌,
}
use kyora.Protocol.{ModelResponse, tool_uses, tool_uses_of, text_of}
use kyora.Mailbox.{Status, is_empty}
use package.kyora.Runtime.World.{Library, Setting, Loop, Calling, Next, Run, Round}
use package.kyora.Runtime.Calls.{call_all}
use package.kyora.Runtime.Deliveries.{add_message}
use package.kyora.Runtime.Turns.{
  settle_turn, give_results, admitted, responded, turn, turns, reply, count_turn, no_results,
  find_invalid, emit_invalid, is_max_tokens, go_on, ask_larger,
}

module _ {V : Type 0} (j : Library V) (s : Setting V) where
  -- The states between the steps of `admitted`.
  pub record Admission (r : Round V) (response : ModelResponse V) (invalid : List (Text × Text))
      (sent : ℕ) (l : Loop V) (next : Next V) : Type 0 where
    pub asked : Loop V
    pub called : Calling V
    pub told : Loop V
    pub recorded :
        add_message
          (reply j s response invalid)
          (count_turn j s response (text_of (reply j s response invalid).content) sent l)
        ≡ ok asked
    pub calls :
        call_all j s response.stop_reason invalid r.calls
          (tool_uses (reply j s response invalid))
          (no_results j s asked)
        ≡ ok called
    pub given :
        give_results j s called.results called.final_answer response.stop_reason r called.loop
        ≡ ok told
    pub settled :
        settle_turn j s called.final_answer response.stop_reason r
          (text_of (reply j s response invalid).content)
          (not (is_empty called.results))
          told
        ≡ ok next

  pub admitted-Admission :
      (r : Round V) (response : ModelResponse V) (invalid : List (Text × Text)) (sent : ℕ)
      (l : Loop V) (next : Next V)
      → admitted j s r response invalid sent l ≡ ok next
      → Admission r response invalid sent l next
  unfolding admitted
  admitted-Admission r response invalid sent l next h =
      let assistant = reply j s response invalid in
      let text = text_of assistant.content in
      let calls = λ (asked : Loop V).
        call_all j s response.stop_reason invalid r.calls (tool_uses assistant)
          (no_results j s asked) in
      let given = λ (called : Calling V).
        give_results j s called.results called.final_answer response.stop_reason r called.loop in
      let settled = λ (called : Calling V) (told : Loop V).
        settle_turn j s called.final_answer response.stop_reason r text
          (not (is_empty called.results)) told in
      let (asked, e₁, h₁) =
        >>=-eq-ok (add_message assistant (count_turn j s response text sent l))
          (λ asked. calls asked >>= λ called. given called >>= λ told. settled called told) h in
      let (called, e₂, h₂) =
        >>=-eq-ok (calls asked) (λ called. given called >>= λ told. settled called told) h₁ in
      let (told, e₃, h₃) = >>=-eq-ok (given called) (λ told. settled called told) h₂ in
      record {
        asked = asked;
        called = called;
        told = told;
        recorded = e₁;
        calls = e₂;
        given = e₃;
        settled = h₃;
      }

  abbrev pub wants_larger : ModelResponse V → List (Text × Text) → Loop V → Bool
  wants_larger response invalid l =
      not (is_empty invalid) && (is_max_tokens response.stop_reason && not l.invalid_retry)

  -- The state after the malformed inputs are recorded.
  pub responded-noted :
      (r : Round V) (response : ModelResponse V) (malformed : List (Text × Text)) (l : Loop V)
      (next : Next V)
      → responded j s r response malformed l ≡ ok next
      → (noted : Loop V) × (emit_invalid
            (find_invalid j s (tool_uses_of response.content) malformed)
            l
          ≡ ok noted)
        × ((let invalid = find_invalid j s (tool_uses_of response.content) malformed in
              if wants_larger response invalid l
              then ask_larger j s noted
              else admitted j s r response invalid (length l.history) noted)
            ≡ ok next)
  unfolding responded
  responded-noted r response malformed l next h =
      let invalid = find_invalid j s (tool_uses_of response.content) malformed in
      >>=-eq-ok (emit_invalid invalid l)
        (λ noted.
          if wants_larger response invalid l
          then ask_larger j s noted
          else admitted j s r response invalid (length l.history) noted)
        h

  -- The first of several turns.
  pub turns-first :
      (r : Round V) (rounds : List (Round V)) (l : Loop V) (next : Next V)
      → turns j s (r ∷ rounds) l ≡ ok next
      → (first : Next V) × (turn j s r l ≡ ok first)
        × (go_on j s (λ n. turns j s rounds n) first ≡ ok next)
  unfolding turns
  turns-first r rounds l next h = >>=-eq-ok (turn j s r l) (go_on j s (λ n. turns j s rounds n)) h

  -- What is left to do after it.
  pub data Onward (rest : Loop V → Run (Next V)) (next : Next V) : Next V → Type 0 where
    more : (l : Loop V) → rest l ≡ ok next → Onward rest next (Next.again l)
    over :
        (status : Status) (l : Loop V)
        → next ≡ Next.stop status l
        → Onward rest next (Next.stop status l)

  pub go_on-Onward :
      (rest : Loop V → Run (Next V)) (first next : Next V)
      → go_on j s rest first ≡ ok next
      → Onward rest next first
  unfolding go_on
  go_on-Onward rest (Next.again l) next h = Onward.more l h
  go_on-Onward rest (Next.stop status l) next h = Onward.over status l cc
