-- ===== src/Ledger/Estimates.antt =====
-- crates/core/src/ledger.rs, `estimate`: the prompt tokens of a request, before its output cap.
-- `content_len` and `tools_len` are the lengths of what `serde_json::to_vec` writes.
use kyora.Base.{
  ℕ, zero, suc, ◌+◌, ◌*◌, ◌%◌, ◌≡◌, refl, ◌∙◌, ap, Option, none, some, List, [], ◌∷◌, ◌++◌, length,
  byte_len, Text, arith,
}
use kyora.Base.Words.{add64, u64_mod}
use kyora.Protocol.{Message, ModelRequest, ContentBlock, ToolSpec}
use kyora.Protocol.Counters.{Usage, total}

module _ {V : Type 0} (content_len : List (ContentBlock V) → ℕ)
    (tools_len : List (ToolSpec V) → ℕ) where
  -- `messages.get(n..).unwrap_or_default()`
  from_index : ℕ → List (Message V) → List (Message V)
  from_index zero messages = messages
  from_index (suc n) [] = []
  from_index (suc n) (_ ∷ messages) = from_index n messages

  -- `.map(…).sum::<u64>()`
  content_sum : List (Message V) → ℕ
  unfolding add64
  content_sum [] = 0
  content_sum (m ∷ messages) = add64 (content_len m.content % u64_mod) (content_sum messages)

  -- The contents of messages, and 16 for each.
  unfoldable pub messages_cost : List (Message V) → ℕ
  unfolding content_sum add64
  messages_cost messages = add64 (content_sum messages) (16 * length messages % u64_mod)

  system_len : Option Text → ℕ
  system_len none = 0
  system_len (some s) = byte_len s

  -- `estimate`
  unfoldable pub estimate : ModelRequest V → Option (Usage × ℕ) → ℕ
  unfolding messages_cost from_index system_len add64
  estimate request (some (usage, sent)) =
      add64 (total usage) (messages_cost (from_index (sent + 1) request.messages))
  estimate request none =
      add64 (add64 (system_len request.system) (tools_len request.tools % u64_mod))
        (add64 (messages_cost request.messages) 512)

  from_index-append :
      (old : List (Message V)) (reply : Message V) (new : List (Message V))
      → from_index (length old + 1) (old ++ reply ∷ new) ≡ new
  unfolding from_index
  from_index-append [] reply new = refl
  from_index-append (m ∷ old) reply new =
      let next : suc (length old) + 1 ≡ suc (length old + 1) = omega arith in
      ap (λ n. from_index n (m ∷ (old ++ reply ∷ new))) next ∙ from_index-append old reply new

  -- After a completed request, the messages that it sent and the reply cost their measured usage,
  -- whatever they are; only the messages after the reply are estimated.
  pub estimate-append :
      (request : ModelRequest V) (usage : Usage) (old : List (Message V)) (reply : Message V)
      (new : List (Message V))
      → request.messages ≡ old ++ reply ∷ new
      → estimate request (some (usage, length old)) ≡ add64 (total usage) (messages_cost new)
  unfolding estimate
  estimate-append request usage old reply new e =
      ap
        (λ (ms : List (Message V)).
          add64 (total usage) (messages_cost (from_index (length old + 1) ms)))
        e
      ∙ ap (λ (ms : List (Message V)). add64 (total usage) (messages_cost ms))
          (from_index-append old reply new)
