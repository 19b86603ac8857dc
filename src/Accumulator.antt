-- ===== src/Accumulator.antt =====
-- crates/providers/src/accumulator.rs: one response built from streaming events. `V` stands for
-- `serde_json::Value`, and `Json` for what the accumulator asks of that library.
pub mod Runs
mod Tests
use kyora.Base.{
  ℕ, zero, suc, Bool, true, false, not, ◌&&◌, ◌||◌, Option, none, some, List, [], ◌∷◌, ◌++◌, ◌==◌,
  if◌then◌else◌, Text, codes, decimal, any, map, Outcome, ok, err, panic, ◌>>=◌, ◌>>◌, ok_or,
  expect,
}
use kyora.Base.Maps.{lookup, insert, update}
use kyora.Protocol.{ContentBlock, BlockStart, StreamEvent, ModelResponse, UsageIteration}
use kyora.Protocol.Counters.{Usage, zero_usage}
use kyora.Protocol.Stop.{StopReason}
use kyora.Provider.{ProviderError}

-- `Value::Null`, `Value::String`, `json!({})`, `from_str` and `to_string`.
pub record Json (V : Type 0) : Type 0 where
  pub null : V
  pub string : Text → V
  pub empty_object : V
  pub from_str : Text → Option V
  pub to_string : V → Option Text

pub record PendingBlock (V : Type 0) : Type 0 where
  pub content : ContentBlock V
  pub partial_json : Text
  pub closed : Bool

pub record Accumulator (V : Type 0) : Type 0 where
  pub header : Option (Option Text × Text)
  pub blocks : List (ℕ × PendingBlock V)
  pub usage : Usage
  pub usage_iterations : List UsageIteration
  pub stop_reason : Option StopReason
  pub stopped : Bool
  pub invalid_tool_inputs : List ℕ

abbrev pub Run : Type 0 → Type 0
Run V = Outcome ProviderError (Accumulator V)

-- `protocol(message)`
abbrev pub fault : {A : Type 0} → Text → Outcome ProviderError A
fault message = err (ProviderError.protocol message)

-- `get_or_insert_default().push_str(…)`
abbrev pub extend_signature : Option Text → Text → Text
extend_signature none t = t
extend_signature (some s) t = s ++ t

-- A non-zero counter replaces the current one.
abbrev pub latest : ℕ → ℕ → ℕ
latest current new = if new == 0 then current else new

pub update_usage : Usage → Usage → Usage
update_usage u v = record {
  input_tokens = latest u.input_tokens v.input_tokens;
  output_tokens = latest u.output_tokens v.output_tokens;
  cache_creation_input_tokens = latest u.cache_creation_input_tokens v.cache_creation_input_tokens;
  cache_read_input_tokens = latest u.cache_read_input_tokens v.cache_read_input_tokens;
}

abbrev pub or_else : {A : Type 0} → Option A → Option A → Option A
or_else none old = old
or_else (some a) old = some a

abbrev pub is_none : {A : Type 0} → Option A → Bool
is_none none = true
is_none (some _) = false

module _ {V : Type 0} where
  -- `Accumulator::new`
  unfoldable pub empty : Accumulator V
  empty = record {
    header = none;
    blocks = [];
    usage = zero_usage;
    usage_iterations = [];
    stop_reason = none;
    stopped = false;
    invalid_tool_inputs = [];
  }

  -- `Accumulator::open_block`
  pub open_block : Accumulator V → ℕ → Outcome ProviderError (PendingBlock V)
  open_block acc index = elim (lookup index acc.blocks) [
    | none ↦ fault (codes "unknown block index " ++ decimal index)
    | some block ↦
        if block.closed
        then fault (codes "block " ++ (decimal index ++ codes " is already stopped"))
        else ok block
  ]

  -- The write through the borrowed block.
  pub write : Accumulator V → ℕ → PendingBlock V → Accumulator V
  write acc index block = record acc { blocks = update index (λ _. block) acc.blocks }

  pub set_content : PendingBlock V → ContentBlock V → PendingBlock V
  set_content block content = record block { content = content }

  pub add_text : ContentBlock V → Text → ℕ → Outcome ProviderError (ContentBlock V)
  add_text (ContentBlock.text s) t index = ok (ContentBlock.text (s ++ t))
  add_text _ t index = fault (codes "text delta for non-text block " ++ decimal index)

  pub add_thinking : ContentBlock V → Text → ℕ → Outcome ProviderError (ContentBlock V)
  add_thinking (ContentBlock.thinking s signature) t index =
      ok (ContentBlock.thinking (s ++ t) signature)
  add_thinking _ t index = fault (codes "thinking delta for non-thinking block " ++ decimal index)

  pub add_signature : ContentBlock V → Text → ℕ → Outcome ProviderError (ContentBlock V)
  add_signature (ContentBlock.thinking s signature) t index =
      ok (ContentBlock.thinking s (some (extend_signature signature t)))
  add_signature _ t index = fault (codes "signature delta for non-thinking block " ++ decimal index)

  pub is_tool_use : ContentBlock V → Bool
  is_tool_use (ContentBlock.tool_use _ _ _) = true
  is_tool_use _ = false

  unfoldable pub start_content : Json V → BlockStart V → ContentBlock V
  start_content j BlockStart.text = ContentBlock.text []
  start_content j BlockStart.thinking = ContentBlock.thinking [] none
  start_content j (BlockStart.tool_use id name) = ContentBlock.tool_use id name j.null
  start_content j (BlockStart.opaque provider kind raw) = ContentBlock.opaque provider kind raw

  -- The parsed arguments and whether they were malformed.
  unfoldable pub parse_input : Json V → Text → V × Bool
  parse_input j [] = (j.empty_object, false)
  parse_input j (c ∷ s) = elim (j.from_str (c ∷ s)) [
    | some value ↦ (value, false)
    | none ↦ (j.string (c ∷ s), true)
  ]

  -- The content of a block that stops, and whether its arguments were malformed.
  unfoldable pub stop_content : Json V → ContentBlock V → Text → ContentBlock V × Bool
  unfolding parse_input
  stop_content j (ContentBlock.tool_use id name input) partial =
      let (value, invalid) = parse_input j partial in (ContentBlock.tool_use id name value, invalid)
  stop_content j (ContentBlock.text s) partial = (ContentBlock.text s, false)
  stop_content j (ContentBlock.thinking s signature) partial =
      (ContentBlock.thinking s signature, false)
  stop_content j (ContentBlock.tool_result id parts is_error) partial =
      (ContentBlock.tool_result id parts is_error, false)
  stop_content j (ContentBlock.opaque provider kind raw) partial =
      (ContentBlock.opaque provider kind raw, false)

  -- The `match` of `Accumulator::push`.
  unfoldable pub apply : Json V → Accumulator V → StreamEvent V → Run V
  unfolding open_block write set_content add_text add_thinking add_signature is_tool_use
      start_content stop_content update_usage
  apply j acc (StreamEvent.message_start id model usage) = elim acc.header [
    | some _ ↦ fault (codes "duplicate message start")
    | none ↦ ok (record acc { header = some (id, model); usage = usage })
  ]
  apply j acc (StreamEvent.block_start index block) = elim (lookup index acc.blocks) [
    | some _ ↦ fault (codes "duplicate block index " ++ decimal index)
    | none ↦
        let pending : PendingBlock V = record {
          content = start_content j block;
          partial_json = [];
          closed = false;
        } in
        ok (record acc { blocks = insert index pending acc.blocks })
  ]
  apply j acc (StreamEvent.text_delta index text) = do
    block ← open_block acc index
    content ← add_text block.content text index
    ok (write acc index (set_content block content))
  apply j acc (StreamEvent.thinking_delta index thinking) = do
    block ← open_block acc index
    content ← add_thinking block.content thinking index
    ok (write acc index (set_content block content))
  apply j acc (StreamEvent.signature_delta index signature) = do
    block ← open_block acc index
    content ← add_signature block.content signature index
    ok (write acc index (set_content block content))
  apply j acc (StreamEvent.tool_input_delta index partial) = do
    block ← open_block acc index
    if is_tool_use block.content
        then ok (write acc index (record block { partial_json = block.partial_json ++ partial }))
        else fault (codes "tool input delta for non-tool block " ++ decimal index)
  apply j acc (StreamEvent.block_stop index) = do
    block ← open_block acc index
    let (content, invalid) = stop_content j block.content block.partial_json
    let after = write acc index (record block { content = content; closed = true })
    ok (
        if invalid
        then record after { invalid_tool_inputs = acc.invalid_tool_inputs ++ index ∷ [] }
        else after)
  apply j acc (StreamEvent.message_delta stop_reason usage) = ok (record acc {
    stop_reason = or_else stop_reason acc.stop_reason;
    usage = update_usage acc.usage usage;
  })
  apply j acc (StreamEvent.usage_snapshot model usage iterations) = do
    header ← expect acc.header
    ok (record acc {
      header = some (header.0, model);
      usage = usage;
      usage_iterations = iterations;
    })
  apply j acc StreamEvent.message_stop =
      if any (λ (entry : ℕ × PendingBlock V). not entry.1.closed) acc.blocks
      then fault (codes "message stopped with open blocks")
      else ok (record acc { stopped = true })

  pub is_start : StreamEvent V → Bool
  is_start (StreamEvent.message_start _ _ _) = true
  is_start _ = false

  -- `Accumulator::push`. Every error is found before the first change.
  unfoldable pub push : Json V → Accumulator V → StreamEvent V → Run V
  unfolding apply is_start
  push j acc event =
      if acc.stopped
      then fault (codes "event after message stop")
      else if is_none acc.header && not (is_start event)
      then fault (codes "event before message start")
      else apply j acc event

  -- `Accumulator::finish`
  unfoldable pub finish : Accumulator V → Outcome ProviderError (ModelResponse V)
  finish acc = if not acc.stopped then fault (codes "stream ended before message stop") else do
    (id, model) ← ok_or acc.header (ProviderError.protocol (codes "missing message start"))
    stop_reason ← ok_or acc.stop_reason (ProviderError.protocol (codes "missing stop reason"))
    ok (record {
      id = id;
      model = model;
      content = map (λ (entry : ℕ × PendingBlock V). entry.1.content) acc.blocks;
      stop_reason = stop_reason;
      usage = acc.usage;
      usage_iterations = acc.usage_iterations;
    })

  -- The loop of `collect`, over events that have arrived.
  unfoldable pub push_all : Json V → Accumulator V → List (StreamEvent V) → Run V
  unfolding push
  push_all j acc [] = ok acc
  push_all j acc (event ∷ events) =
      let rest = λ (next : Accumulator V). push_all j next events in push j acc event >>= rest

  -- `collect`, over a stream that yields these events and no error.
  unfoldable pub collect : Json V → List (StreamEvent V) → Outcome ProviderError (ModelResponse V)
  unfolding empty push_all finish
  collect j events = push_all j empty events >>= finish
