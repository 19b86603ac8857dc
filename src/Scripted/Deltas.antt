-- ===== src/Scripted/Deltas.antt =====
-- crates/providers/src/fake.rs and accumulator.rs: the deltas of one block, accumulated.
use mathlib.Core.Path.{fun_ext}
use mathlib.Core.List.{append-nil, append_assoc}
use kyora.Base.{
  ℕ, ◌≡◌, refl, ◌∙◌, sym, ap, true, false, Option, some, List, [], ◌∷◌, ◌++◌, map, Text, concat,
  arith, Outcome, ok, ◌>>=◌, >>=-assoc,
}
use kyora.Base.Maps.{Below, lookup_last, update_last, lookup_above, insert_above}
use kyora.Protocol.{ContentBlock, BlockStart, StreamEvent}
use kyora.Provider.{ProviderError}
use kyora.Accumulator.{
  Json, Accumulator, PendingBlock, push, push_all, extend_signature, start_content, stop_content,
}

module _ {V : Type 0} where
  pub push_all-append :
      (j : Json V) (acc : Accumulator V) (xs ys : List (StreamEvent V))
      → push_all j acc (xs ++ ys) ≡ (push_all j acc xs >>= λ a. push_all j a ys)
  unfolding push_all
  push_all-append j acc [] ys = refl
  push_all-append j acc (x ∷ xs) ys =
      ap (λ (f : Accumulator V → Outcome ProviderError (Accumulator V)). push j acc x >>= f)
        (fun_ext (λ next. push_all-append j next xs ys))
      ∙ sym (>>=-assoc (push j acc x) (λ next. push_all j next xs) (λ a. push_all j a ys))

  abbrev pub pending : ContentBlock V → Text → PendingBlock V
  pending content partial = record { content = content; partial_json = partial; closed = false }

  -- The accumulator with one more block behind the others.
  abbrev pub at : Accumulator V → List (ℕ × PendingBlock V) → ℕ → PendingBlock V → Accumulator V
  at acc blocks i block = record acc { blocks = blocks ++ (i, block) ∷ [] }

-- Pieces that each extend a block's text extend it by their concatenation.
pub push_all-pieces :
    {V : Type 0} (j : Json V) (state : Text → Accumulator V) (event : Text → StreamEvent V)
    → ((s t : Text) → push j (state s) (event t) ≡ ok (state (s ++ t)))
    → (ps : List Text) (s : Text)
    → push_all j (state s) (map event ps) ≡ ok (state (s ++ concat ps))
unfolding push_all concat
push_all-pieces j state event step [] s = rw (append-nil s)
push_all-pieces j state event step (p ∷ ps) s =
    rw (step s p)
      (push_all-pieces j state event step ps (s ++ p) ∙ rw (append_assoc s p (concat ps)))

module _ {V : Type 0} (j : Json V) (acc : Accumulator V) (head : Option Text × Text)
    (started : acc.header ≡ some head) (running : acc.stopped ≡ false)
    (blocks : List (ℕ × PendingBlock V)) (i : ℕ) (below : Below i blocks) where
  pub text_step :
      (p s t : Text)
      → push j (at acc blocks i (pending (ContentBlock.text s) p)) (StreamEvent.text_delta i t)
        ≡ ok (at acc blocks i (pending (ContentBlock.text (s ++ t)) p))
  unfolding push
  text_step p s t = ground (
    arith,
    lookup_last i (pending (ContentBlock.text s) p) blocks below,
    update_last i (λ _. pending (ContentBlock.text (s ++ t)) p) (pending (ContentBlock.text s) p)
        blocks below,
  )

  pub thinking_step :
      (signature : Option Text) (s t : Text)
      → push j
          (at acc blocks i (pending (ContentBlock.thinking s signature) []))
          (StreamEvent.thinking_delta i t)
        ≡ ok (at acc blocks i (pending (ContentBlock.thinking (s ++ t) signature) []))
  unfolding push
  thinking_step signature s t = ground (
    arith,
    lookup_last i (pending (ContentBlock.thinking s signature) []) blocks below,
    update_last i (λ _. pending (ContentBlock.thinking (s ++ t) signature) [])
        (pending (ContentBlock.thinking s signature) []) blocks below,
  )

  pub signature_step :
      (s : Text) (signature : Option Text) (t : Text)
      → push j
          (at acc blocks i (pending (ContentBlock.thinking s signature) []))
          (StreamEvent.signature_delta i t)
        ≡ ok (
            at acc blocks i
              (pending (ContentBlock.thinking s (some (extend_signature signature t))) []))
  unfolding push
  signature_step s signature t = ground (
    arith,
    lookup_last i (pending (ContentBlock.thinking s signature) []) blocks below,
    update_last i (λ _. pending (ContentBlock.thinking s (some (extend_signature signature t))) [])
        (pending (ContentBlock.thinking s signature) []) blocks below,
  )

  pub input_step :
      (id name : Text) (input : V) (s t : Text)
      → push j
          (at acc blocks i (pending (ContentBlock.tool_use id name input) s))
          (StreamEvent.tool_input_delta i t)
        ≡ ok (at acc blocks i (pending (ContentBlock.tool_use id name input) (s ++ t)))
  unfolding push
  input_step id name input s t = ground (
    arith,
    lookup_last i (pending (ContentBlock.tool_use id name input) s) blocks below,
    update_last i (λ _. pending (ContentBlock.tool_use id name input) (s ++ t))
        (pending (ContentBlock.tool_use id name input) s) blocks below,
  )

  -- A block begins behind the others.
  pub start_step :
      (block : BlockStart V)
      → push j (record acc { blocks = blocks }) (StreamEvent.block_start i block)
        ≡ ok (at acc blocks i (pending (start_content j block) []))
  unfolding push
  start_step block = ground (
    arith,
    lookup_above i blocks below,
    insert_above i (pending (start_content j block) []) blocks below,
  )

  -- A block that stops keeps its partial arguments; well-formed ones are not reported.
  pub stop_step :
      (content after : ContentBlock V) (p : Text)
      → stop_content j content p ≡ (after, false)
      → push j (at acc blocks i (pending content p)) (StreamEvent.block_stop i)
        ≡ ok (at acc blocks i (record { content = after; partial_json = p; closed = true }))
  unfolding push
  stop_step content after p e = ground (
    arith,
    lookup_last i (pending content p) blocks below,
    update_last i (λ _. record { content = after; partial_json = p; closed = true })
        (pending content p) blocks below,
  )
