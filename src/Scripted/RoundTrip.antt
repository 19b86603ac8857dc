-- ===== src/Scripted/RoundTrip.antt =====
-- crates/providers/src/fake.rs and accumulator.rs together: the events that the scripted provider
-- makes of a response, collected.
use mathlib.Core.List.{append-nil, append_assoc, map-append}
use kyora.Base.{
  ℕ, suc, ◌≡◌, refl, ◌∙◌, sym, ap, ◌≢◌, Bool, true, false, not, Option, none, some, List, [], ◌∷◌,
  ◌++◌, map, Text, concat, any, arith, ok, ◌>>=◌,
}
use kyora.Base.Maps.{Below, snoc-Below}
use kyora.Protocol.{
  ContentBlock, BlockStart, StreamEvent, ModelResponse, ModelRequest, UsageIteration,
}
use kyora.Protocol.Counters.{zero_usage}
use kyora.Accumulator.{
  Json, Accumulator, PendingBlock, Run, latest, push, push_all, collect, finish, start_content,
  stop_content,
}
use kyora.Scripted.{
  block_parts, content_events, response_events, completed, signature_events, snapshot_events,
}
use kyora.Scripted.Chunks.{chunks, chunks_lem, chunks-some}
use kyora.Scripted.Deltas.{
  push_all-append, push_all-pieces, pending, at, text_step, thinking_step, signature_step,
  input_step, start_step, stop_step,
}

-- A block that can be model output: no tool result, and arguments that their own text, which is not
-- empty, is parsed back into.
abbrev pub Streamable : {V : Type 0} → Json V → ContentBlock V → Type 0
Streamable j (ContentBlock.tool_use id name input) =
    (s : Text) × (j.to_string input ≡ some s) × (s ≢ []) × (j.from_str s ≡ some input)
Streamable j (ContentBlock.tool_result _ _ _) = ⊥
Streamable j _ = Unit {0}

abbrev pub AllStreamable : {V : Type 0} → Json V → List (ContentBlock V) → Type 0
AllStreamable j [] = Unit {0}
AllStreamable j (c ∷ cs) = Streamable j c × AllStreamable j cs

stop_input :
    {V : Type 0} (j : Json V) (id name : Text) (input : V) (s : Text)
    → s ≢ []
    → j.from_str s ≡ some input
    → stop_content j (ContentBlock.tool_use id name j.null) s
      ≡ (ContentBlock.tool_use id name input, false)
unfolding stop_content
stop_input j id name input [] some_text parsed = absurd (some_text refl)
stop_input j id name input (c ∷ s) some_text parsed = ground arith

module _ {V : Type 0} (j : Json V) (acc : Accumulator V) (head : Option Text × Text)
    (started : acc.header ≡ some head) (running : acc.stopped ≡ false) (size : ℕ)
    (blocks : List (ℕ × PendingBlock V)) (i : ℕ) (below : Below i blocks) where
  abbrev done_block : ContentBlock V → Text → PendingBlock V
  done_block c p = record { content = c; partial_json = p; closed = true }

  -- A block's start, deltas and stop leave the finished block.
  block_run :
      (start : BlockStart V) (deltas rest : List (StreamEvent V)) (before c : ContentBlock V)
      (p : Text)
      → push_all j (at acc blocks i (pending (start_content j start) [])) deltas
        ≡ ok (at acc blocks i (pending before p))
      → stop_content j before p ≡ (c, false)
      → push_all j
          (record acc { blocks = blocks })
          (StreamEvent.block_start i start ∷ (deltas ++ StreamEvent.block_stop i ∷ rest))
        ≡ push_all j (at acc blocks i (done_block c p)) rest
  unfolding push_all
  block_run start deltas rest before c p run stop =
      rw (start_step j acc head started running blocks i below start) (
        push_all-append j (at acc blocks i (pending (start_content j start) [])) deltas
          (StreamEvent.block_stop i ∷ rest)
        ∙ rw run (rw (stop_step j acc head started running blocks i below before c p stop)))

  signature_run :
      (s : Text) (signature : Option Text)
      → push_all j
          (at acc blocks i (pending (ContentBlock.thinking s none) []))
          (signature_events size i signature)
        ≡ ok (at acc blocks i (pending (ContentBlock.thinking s signature) []))
  unfolding push_all concat
  signature_run s none = refl
  signature_run s (some sg) =
      let (p, ps, e) = chunks-some sg size in
      let whole : p ++ concat ps ≡ sg = ap concat (sym e) ∙ (chunks_lem sg size).0 in
      rw e (
        rw (signature_step j acc head started running blocks i below s none p) (
          push_all-pieces j (λ t. at acc blocks i (pending (ContentBlock.thinking s (some t)) []))
            (λ t. StreamEvent.signature_delta i t)
            (λ t u. signature_step j acc head started running blocks i below s (some t) u) ps p
          ∙ rw whole))

  -- Every streamable block comes back as itself.
  block_lem :
      (c : ContentBlock V)
      → Streamable j c
      → (start : BlockStart V) × (deltas : List (StreamEvent V)) × (p : Text) × (block_parts j size
            i c
          ≡ ok (start, deltas))
        × ((rest : List (StreamEvent V))
            → push_all j
                (record acc { blocks = blocks })
                (StreamEvent.block_start i start ∷ (deltas ++ StreamEvent.block_stop i ∷ rest))
              ≡ push_all j (at acc blocks i (done_block c p)) rest)
  unfolding block_parts start_content stop_content push_all
  block_lem (ContentBlock.text s) h =
      let deltas = map (λ t. StreamEvent.text_delta i t) (chunks s size) in
      let run =
        push_all-pieces j (λ t. at acc blocks i (pending (ContentBlock.text t) []))
          (λ t. StreamEvent.text_delta i t)
          (λ t u. text_step j acc head started running blocks i below [] t u) (chunks s size) [] in
      (
        BlockStart.text,
        deltas,
        [],
        refl,
        λ rest.
            block_run BlockStart.text deltas rest (ContentBlock.text s) (ContentBlock.text s) []
              (run ∙ rw ((chunks_lem s size).0)) refl,
      )
  block_lem (ContentBlock.thinking s signature) h =
      let deltas = map (λ t. StreamEvent.thinking_delta i t) (chunks s size) in
      let run =
        push_all-pieces j (λ t. at acc blocks i (pending (ContentBlock.thinking t none) []))
          (λ t. StreamEvent.thinking_delta i t)
          (λ t u. thinking_step j acc head started running blocks i below none t u) (chunks s size)
          [] in
      let first : push_all j (at acc blocks i (pending (ContentBlock.thinking [] none) [])) deltas
          ≡ ok (at acc blocks i (pending (ContentBlock.thinking s none) [])) =
        run
        ∙ ap (λ t. ok (at acc blocks i (pending (ContentBlock.thinking t none) [])))
            (chunks_lem s size).0 in
      let both =
        push_all-append j (at acc blocks i (pending (ContentBlock.thinking [] none) [])) deltas
          (signature_events size i signature) in
      (
        BlockStart.thinking,
        deltas ++ signature_events size i signature,
        [],
        refl,
        λ rest.
            block_run BlockStart.thinking (deltas ++ signature_events size i signature) rest
              (ContentBlock.thinking s signature) (ContentBlock.thinking s signature) []
              (both
                ∙ ap (λ (o : Run V). o >>= λ a. push_all j a (signature_events size i signature))
                    first
                ∙ signature_run s signature)
              refl,
      )
  block_lem (ContentBlock.tool_use id name input) (json, printed, some_text, parsed) =
      let deltas = map (λ t. StreamEvent.tool_input_delta i t) (chunks json size) in
      let run =
        push_all-pieces j (λ t. at acc blocks i (pending (ContentBlock.tool_use id name j.null) t))
          (λ t. StreamEvent.tool_input_delta i t)
          (λ t u. input_step j acc head started running blocks i below id name j.null t u)
          (chunks json size) [] in
      (
        BlockStart.tool_use id name,
        deltas,
        json,
        rw printed,
        λ rest.
            block_run (BlockStart.tool_use id name) deltas rest
              (ContentBlock.tool_use id name j.null) (ContentBlock.tool_use id name input) json
              (run ∙ rw ((chunks_lem json size).0))
              (stop_input j id name input json some_text parsed),
      )
  block_lem (ContentBlock.opaque provider kind raw) h = (
    BlockStart.opaque provider kind raw,
    [],
    [],
    refl,
    λ rest.
        block_run (BlockStart.opaque provider kind raw) [] rest
          (ContentBlock.opaque provider kind raw) (ContentBlock.opaque provider kind raw) [] refl
          refl,
  )
  block_lem (ContentBlock.tool_result id parts is_error) h = absurd h

module _ {V : Type 0} where
  abbrev contents : List (ℕ × PendingBlock V) → List (ContentBlock V)
  contents blocks = map (λ (entry : ℕ × PendingBlock V). entry.1.content) blocks

  abbrev some_open : List (ℕ × PendingBlock V) → Bool
  some_open blocks = any (λ (entry : ℕ × PendingBlock V). not entry.1.closed) blocks

  some_open-snoc :
      (blocks : List (ℕ × PendingBlock V)) (i : ℕ) (b : PendingBlock V)
      → b.closed ≡ true
      → some_open (blocks ++ (i, b) ∷ []) ≡ some_open blocks
  some_open-snoc [] i b h = ground arith
  some_open-snoc (x ∷ blocks) i b h = ground (arith, some_open-snoc blocks i b h)

module _ {V : Type 0} (j : Json V) (acc : Accumulator V) (head : Option Text × Text)
    (started : acc.header ≡ some head) (running : acc.stopped ≡ false) (size : ℕ)
    (rest : List (StreamEvent V)) where
  -- What the events of some content leave behind the blocks that were there.
  abbrev Replayed : List (ContentBlock V) → List (ℕ × PendingBlock V) → ℕ → Type 0
  Replayed cs blocks i =
      (events : List (StreamEvent V)) × (after : List (ℕ × PendingBlock V)) × (content_events j size
          i cs
        ≡ ok events)
      × (push_all j (record acc { blocks = blocks }) (events ++ rest)
          ≡ push_all j (record acc { blocks = after }) rest)
      × (contents after ≡ contents blocks ++ cs)
      × (some_open after ≡ some_open blocks)

  content_lem :
      (cs : List (ContentBlock V)) (blocks : List (ℕ × PendingBlock V)) (i : ℕ)
      → Below i blocks
      → AllStreamable j cs
      → Replayed cs blocks i
  unfolding content_events
  content_lem [] blocks i below h =
      ([], blocks, refl, refl, sym (append-nil (contents blocks)), refl)
  content_lem (c ∷ cs) blocks i below h =
      let (start, deltas, p, parts, run) =
        block_lem j acc head started running size blocks i below c h.0 in
      let closed : PendingBlock V = record { content = c; partial_json = p; closed = true } in
      let (events, after, made, ran, whole, opened) =
        content_lem cs (blocks ++ (i, closed) ∷ []) (suc i) (snoc-Below i closed blocks below)
          h.1 in
      (
        StreamEvent.block_start i start ∷ (deltas ++ StreamEvent.block_stop i ∷ events),
        after,
        rw (parts, made),
        rw (append_assoc deltas (StreamEvent.block_stop i ∷ events) rest)
            (run (events ++ rest) ∙ ran),
        whole
            ∙ rw
                (map-append (λ (entry : ℕ × PendingBlock V). entry.1.content) blocks
                  ((i, closed) ∷ []))
                (append_assoc (contents blocks) (c ∷ []) cs),
        opened ∙ some_open-snoc blocks i closed refl,
      )

module _ {V : Type 0} (j : Json V) (r : ModelResponse V) where
  -- The accumulator after the first event, and the events behind the blocks.
  abbrev begun : Accumulator V
  begun = record {
    header = some (r.id, r.model);
    blocks = [];
    usage = record (r.usage) { output_tokens = 0 };
    usage_iterations = [];
    stop_reason = none;
    stopped = false;
    invalid_tool_inputs = [];
  }

  abbrev closing : List (StreamEvent V)
  closing =
      StreamEvent.message_delta (some r.stop_reason)
        (record zero_usage { output_tokens = r.usage.output_tokens })
      ∷ (snapshot_events r ++ StreamEvent.message_stop ∷ [])

  latest_output : (n : ℕ) → latest 0 n ≡ n
  latest_output n = ground arith

  closing_lem :
      (blocks : List (ℕ × PendingBlock V)) (is : List UsageIteration)
      → r.usage_iterations ≡ is
      → some_open blocks ≡ false
      → contents blocks ≡ r.content
      → (push_all j (record begun { blocks = blocks }) closing >>= finish) ≡ ok r
  unfolding push_all push finish
  closing_lem blocks [] e o c = ground (arith, latest_output r.usage.output_tokens)
  closing_lem blocks (i ∷ is) e o c = ground (arith, latest_output r.usage.output_tokens)

-- A response without tool results, whose tool arguments are written as a text that is not empty
-- and is read back as they are, is made into events, and collecting the events gives the
-- response back whole: id, model, content in order, stop reason, usage and iterations, with the
-- model and usage that the provider fills in when they are missing. It holds for every chunk
-- size.
pub collect-response_events :
    {V : Type 0} (j : Json V) (response : ModelResponse V) (request : ModelRequest V) (size : ℕ)
    → AllStreamable j response.content
    → (events : List (StreamEvent V)) × (response_events j response request size ≡ ok events)
      × (collect j events ≡ ok (completed response request))
unfolding response_events collect completed
collect-response_events j response request size h =
    let r = completed response request in
    let (events, after, made, ran, whole, opened) =
      content_lem j (begun j r) (r.id, r.model) refl refl size (closing j r) r.content [] 0 tt h in
    (
      StreamEvent.message_start r.id r.model (record (r.usage) { output_tokens = 0 })
          ∷ (events ++ closing j r),
      rw made,
      ap (λ (o : Run _). o >>= finish) ran
          ∙ closing_lem j r after r.usage_iterations refl opened whole,
    )
