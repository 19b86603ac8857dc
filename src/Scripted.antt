-- ===== src/Scripted.antt =====
-- crates/providers/src/fake.rs: the scripted provider, its rules, and the stream of events that it
-- makes of a response. Cancellation between events is not modelled here.
pub mod Chunks
pub mod Deltas
pub mod RoundTrip
mod Tests
use kyora.Base.{
  ℕ, zero, suc, ◌+◌, ◌/◌, max, Bool, true, false, not, ◌&&◌, ◌||◌, Option, none, some, List, [],
  ◌∷◌, ◌++◌, ltb, ◌==◌, if◌then◌else◌, Text, codes, byte_len, len_utf8, map, select, count,
  get_elem?, Outcome, ok, err, panic, ◌>>=◌, ◌>>◌, ok_or, decimal,
}
use kyora.Protocol.{
  ContentBlock, BlockStart, StreamEvent, ModelResponse, ModelRequest, Message, Role, message_text,
}
use kyora.Protocol.Counters.{Usage, zero_usage}
use kyora.Protocol.Stop.{StopReason}
use kyora.Provider.{ProviderError}
use kyora.Accumulator.{Json}
use Chunks.{chunks}

pub record Matcher : Type 0 where
  pub depth : Option ℕ
  pub first_user_contains : Option Text
  pub last_user_contains : Option Text
  pub system_contains : Option Text

pub record Rule (V : Type 0) : Type 0 where
  pub matcher : Option Matcher
  pub responses : List (ModelResponse V)

starts_with : Text → Text → Bool
starts_with [] s = true
starts_with (c ∷ p) [] = false
starts_with (c ∷ p) (d ∷ s) = c == d && starts_with p s

-- `str::contains`
contains_text : Text → Text → Bool
unfolding starts_with
contains_text needle [] = starts_with needle []
contains_text needle (c ∷ s) = starts_with needle (c ∷ s) || contains_text needle s

abbrev is_user : Role → Bool
is_user Role.user = true
is_user Role.assistant = false

abbrev is_none_or : {A : Type 0} → Option A → (A → Bool) → Bool
is_none_or none p = true
is_none_or (some a) p = p a

abbrev is_some_and : {A : Type 0} → Option A → (A → Bool) → Bool
is_some_and none p = false
is_some_and (some a) p = p a

abbrev first : {A : Type 0} → List A → Option A
first [] = none
first (x ∷ _) = some x

abbrev last : {A : Type 0} → List A → Option A
last [] = none
last (x ∷ []) = some x
last (_ ∷ y ∷ xs) = last (y ∷ xs)

abbrev or_default : Option Text → Text
or_default none = []
or_default (some t) = t

abbrev text_at : {V : Type 0} → Option (Message V) → Option Text
text_at none = none
text_at (some m) = some (message_text m)

-- `user_text(request, First)` and `user_text(request, Last)`
first_user_text : {V : Type 0} → ModelRequest V → Option Text
unfolding message_text
first_user_text r = text_at (first (select (λ m. is_user m.role) r.messages))

last_user_text : {V : Type 0} → ModelRequest V → Option Text
unfolding message_text
last_user_text r = text_at (last (select (λ m. is_user m.role) r.messages))

-- `Matcher::matches`
pub matches : {V : Type 0} → Matcher → ModelRequest V → Bool
unfolding first_user_text last_user_text contains_text
matches m r =
    is_none_or m.depth (λ d. d == r.depth)
    && is_none_or m.first_user_contains (λ n. is_some_and (first_user_text r) (contains_text n))
    && is_none_or m.last_user_contains (λ n. is_some_and (last_user_text r) (contains_text n))
    && is_none_or m.system_contains (λ n. is_some_and r.system (contains_text n))

-- `find_map(|rule| rule.responses.get(turn))` over the rules that match.
pub find_response : {V : Type 0} → List (Rule V) → ModelRequest V → ℕ → Option (ModelResponse V)
unfolding matches
find_response [] r turn = none
find_response (rule ∷ rules) r turn =
    let rest = find_response rules r turn in
    if is_none_or rule.matcher (λ m. matches m r)
    then (elim (get_elem? rule.responses turn) [ some response ↦ some response | none ↦ rest ])
    else rest

-- `ScriptedProvider::respond`. The message of the error is shortened to its first part.
pub respond :
    {V : Type 0} → List (Rule V) → ModelRequest V → Outcome ProviderError (ModelResponse V)
unfolding find_response
respond rules r =
    let turn = count (λ m. not (is_user m.role)) r.messages in
    ok_or (find_response rules r turn)
      (ProviderError.other (codes "fake provider: no scripted response for turn " ++ decimal turn))

abbrev is_blank : Text → Bool
is_blank [] = true
is_blank (_ ∷ _) = false

abbrev is_zero_usage : Usage → Bool
is_zero_usage u =
    u.input_tokens == 0
    && u.output_tokens == 0
    && u.cache_creation_input_tokens == 0
    && u.cache_read_input_tokens == 0

module _ {V : Type 0} where
  message_bytes : List (Message V) → ℕ
  unfolding message_text byte_len
  message_bytes [] = 0
  message_bytes (m ∷ ms) = byte_len (message_text m) + message_bytes ms

  text_bytes : List (ContentBlock V) → ℕ
  unfolding byte_len
  text_bytes [] = 0
  text_bytes (ContentBlock.text s ∷ bs) = byte_len s + text_bytes bs
  text_bytes (_ ∷ bs) = text_bytes bs

  -- The usage that is made up for a response without one.
  pub estimated_usage : ModelResponse V → ModelRequest V → Usage
  unfolding message_bytes text_bytes byte_len
  estimated_usage response request =
      let input = byte_len (or_default request.system) + message_bytes request.messages in
      record zero_usage {
        input_tokens = max (input / 4) 1;
        output_tokens = max (text_bytes response.content / 4) 1;
      }

  -- The response with its model and its usage filled in.
  unfoldable pub completed : ModelResponse V → ModelRequest V → ModelResponse V
  unfolding estimated_usage
  completed response request = record response {
    model = if is_blank response.model then request.model else response.model;
    usage =
        if is_zero_usage response.usage then estimated_usage response request else response.usage;
  }

  abbrev pub signature_events : ℕ → ℕ → Option Text → List (StreamEvent V)
  signature_events size index none = []
  signature_events size index (some s) =
      map (λ t. StreamEvent.signature_delta index t) (chunks s size)

  -- The events between the start and the stop of one block, and how it starts.
  unfoldable pub block_parts :
      Json V → ℕ → ℕ → ContentBlock V → Outcome ProviderError (BlockStart V × List (StreamEvent V))
  unfolding chunks
  block_parts j size index (ContentBlock.text s) =
      ok (BlockStart.text, map (λ t. StreamEvent.text_delta index t) (chunks s size))
  block_parts j size index (ContentBlock.thinking s signature) = ok (
    BlockStart.thinking,
    map (λ t. StreamEvent.thinking_delta index t) (chunks s size)
        ++ signature_events size index signature,
  )
  block_parts j size index (ContentBlock.tool_use id name input) = do
    json ← ok_or (j.to_string input) (ProviderError.protocol (codes "unserializable input"))
    ok (
      BlockStart.tool_use id name,
      map (λ t. StreamEvent.tool_input_delta index t) (chunks json size),
    )
  block_parts j size index (ContentBlock.opaque provider kind raw) =
      ok (BlockStart.opaque provider kind raw, [])
  block_parts j size index (ContentBlock.tool_result _ _ _) =
      err (ProviderError.protocol (codes "tool results cannot be streamed as model output"))

  -- The loop over the content.
  unfoldable pub content_events :
      Json V → ℕ → ℕ → List (ContentBlock V) → Outcome ProviderError (List (StreamEvent V))
  unfolding block_parts
  content_events j size index [] = ok []
  content_events j size index (content ∷ more) = do
    (block, deltas) ← block_parts j size index content
    rest ← content_events j size (suc index) more
    ok (StreamEvent.block_start index block ∷ (deltas ++ StreamEvent.block_stop index ∷ rest))

  abbrev pub snapshot_events : ModelResponse V → List (StreamEvent V)
  snapshot_events r = elim r.usage_iterations [
    | [] ↦ []
    | i ∷ is ↦ StreamEvent.usage_snapshot r.model r.usage (i ∷ is) ∷ []
  ]

  -- `response_stream`
  unfoldable pub response_events :
      Json V → ModelResponse V → ModelRequest V → ℕ → Outcome ProviderError (List (StreamEvent V))
  unfolding completed content_events
  response_events j response request size = do
    let r = completed response request
    blocks ← content_events j size 0 r.content
    ok (
        StreamEvent.message_start r.id r.model (record (r.usage) { output_tokens = 0 })
        ∷ (blocks
            ++ (StreamEvent.message_delta (some r.stop_reason)
                  (record zero_usage { output_tokens = r.usage.output_tokens })
                ∷ (snapshot_events r ++ StreamEvent.message_stop ∷ []))))
