-- ===== src/Runtime/Deliveries.antt =====
-- crates/core/src/runtime.rs, `message`, `user_turn`, `deliver` and `idle`: how messages enter the
-- conversation of an agent.
use kyora.Base.{
  ℕ, zero, suc, Bool, true, false, not, ◌||◌, Option, none, some, List, [], ◌∷◌, ◌++◌, map, Text,
  codes, ltb, length, if◌then◌else◌, ok, ◌>>=◌,
}
use kyora.Protocol.{ContentBlock, Message, Role}
use kyora.Mailbox.{Mailbox, Envelope, Batch, Idle, take, idle, is_empty}
use kyora.Mailbox.Texts.{more}
use package.kyora.Runtime.World.{Setting, Event, Loop, Run}
use package.kyora.Runtime.Calls.{emit}

-- A record whose failed write only shows in the next one.
unfoldable pub emit_quietly : {V : Type 0} → Loop V → Event V → Loop V
emit_quietly l event = elim l.room [
  | zero ↦ l
  | suc room ↦ record l { trace = l.trace ++ event ∷ []; room = room }
]

-- `Runtime::message`
unfoldable pub add_message : {V : Type 0} → Message V → Loop V → Run (Loop V)
unfolding emit
add_message m l = do
  written ← emit l (Event.message m)
  ok (record written { history = written.history ++ m ∷ [] })

-- The text blocks of one delivery.
unfoldable pub delivery_blocks : {V : Type 0} → (Envelope → Text) → Batch → List (ContentBlock V)
unfolding more
delivery_blocks render batch =
    map (λ e. ContentBlock.text (render e)) batch.taken
    ++ (if ltb 0 batch.queued
        then ContentBlock.text (codes "[" ++ (more batch.queued ++ codes "]")) ∷ []
        else [])

abbrev pub ids_of : List Envelope → List ℕ
ids_of es = map (λ e. e.id) es

-- `Runtime::deliver`
unfoldable pub deliver :
    {V : Type 0} → (Envelope → Text) → List (ContentBlock V) → Batch → Loop V → Run (Loop V)
unfolding emit_quietly delivery_blocks add_message
deliver render content batch l =
    let recorded =
      if is_empty batch.taken then l else emit_quietly l (Event.delivered (ids_of batch.taken)) in
    add_message (record { role = Role.user; content = content ++ delivery_blocks render batch })
      recorded

-- `Runtime::idle`
unfoldable pub wait_idle :
    Bool → ℕ → (Envelope → ℕ) → List (Mailbox → Mailbox) → Mailbox → Option Batch × Mailbox
unfolding idle
wait_idle close budget size [] m = elim (idle m close budget size).0 [
  | Idle.deliver batch ↦ (some batch, (idle m close budget size).1)
  | Idle.wait ↦ (none, (idle m close budget size).1)
  | Idle.done ↦ (none, (idle m close budget size).1)
]
wait_idle close budget size (wakes ∷ later) m =
    let rest = wait_idle close budget size later (wakes (idle m close budget size).1) in
    elim (idle m close budget size).0 [
      | Idle.deliver batch ↦ (some batch, (idle m close budget size).1)
      | Idle.wait ↦ rest
      | Idle.done ↦ (none, (idle m close budget size).1)
    ]

module _ {V : Type 0} (s : Setting V) where
  -- `Runtime::size`
  unfoldable pub size : Envelope → ℕ
  size e = length (s.render e)

  -- `Runtime::user_turn`
  unfoldable pub user_turn : List (ContentBlock V) → Bool → Loop V → Run (Loop V)
  unfolding take deliver add_message size
  user_turn content false l = add_message (record { role = Role.user; content = content }) l
  user_turn content true l =
      let (batch, m) = take l.mailbox s.delivery_chars (λ _. true) size in
      let taken = record l { mailbox = m } in
      if not (is_empty batch.taken) || ltb 0 batch.queued
      then deliver s.render content batch taken
      else add_message (record { role = Role.user; content = content }) taken
