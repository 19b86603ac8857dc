-- ===== src/Accumulator/Runs.antt =====
-- crates/providers/src/accumulator.rs, whole streams: which sequences of events a response comes of.
use kyora.Base.{
  ◌≡◌, refl, ◌∙◌, sym, ap, true, false, ◌⊎◌, inl, inr, List, [], ◌∷◌, ◌++◌, Option, Outcome, ok,
  err, panic, ◌>>=◌, Text, Bool-cases, arith,
}
use kyora.Protocol.{StreamEvent, ModelResponse}
use kyora.Protocol.Counters.{Usage}
use kyora.Accumulator.{
  Json, Accumulator, apply, push, push_all, empty, finish, collect, write, is_start,
}

bind-ok :
    {E A B : Type 0} (m : Outcome E A) (f : A → Outcome E B) (b : B)
    → (m >>= f) ≡ ok b
    → (a : A) × (m ≡ ok a) × (f a ≡ ok b)
bind-ok (ok a) f b e = (a, refl, e)
bind-ok (err x) f b e = ground arith
bind-ok panic f b e = ground arith

module _ {V : Type 0} (j : Json V) where
  -- Only `message_stop` sets the flag.
  apply-stopped :
      (acc after : Accumulator V) (event : StreamEvent V)
      → acc.stopped ≡ false
      → apply j acc event ≡ ok after
      → (after.stopped ≡ false) ⊎ (event ≡ StreamEvent.message_stop)
  unfolding apply write
  apply-stopped acc after (StreamEvent.message_start id model usage) h e = ground arith
  apply-stopped acc after (StreamEvent.block_start index block) h e = ground arith
  apply-stopped acc after (StreamEvent.text_delta index text) h e = ground arith
  apply-stopped acc after (StreamEvent.thinking_delta index text) h e = ground arith
  apply-stopped acc after (StreamEvent.signature_delta index text) h e = ground arith
  apply-stopped acc after (StreamEvent.tool_input_delta index text) h e = ground arith
  apply-stopped acc after (StreamEvent.block_stop index) h e = ground arith
  apply-stopped acc after (StreamEvent.message_delta stop_reason usage) h e = ground arith
  apply-stopped acc after (StreamEvent.usage_snapshot model usage iterations) h e = ground arith
  apply-stopped acc after StreamEvent.message_stop h e = inr refl

  push-stopped :
      (acc after : Accumulator V) (event : StreamEvent V)
      → push j acc event ≡ ok after
      → (acc.stopped ≡ false) × ((after.stopped ≡ false) ⊎ (event ≡ StreamEvent.message_stop))
  unfolding push
  push-stopped acc after event e = ground (arith, apply-stopped acc after event)

  push-header :
      (after : Accumulator V) (event : StreamEvent V)
      → push j empty event ≡ ok after
      → is_start event ≡ true
  unfolding push empty
  push-header after event e = ground arith

  -- Nothing is accepted after the flag is set.
  push_all-ended :
      (acc after : Accumulator V) (events : List (StreamEvent V))
      → acc.stopped ≡ true
      → push_all j acc events ≡ ok after
      → events ≡ []
  unfolding push_all push
  push_all-ended acc after [] h e = refl
  push_all-ended acc after (event ∷ events) h e = ground arith

  push_all-stops :
      (acc after : Accumulator V) (events : List (StreamEvent V))
      → acc.stopped ≡ false
      → push_all j acc events ≡ ok after
      → after.stopped ≡ true
      → (before : List (StreamEvent V)) × (events ≡ before ++ StreamEvent.message_stop ∷ [])
  unfolding push_all
  push_all-stops acc after [] h e s = ground arith
  push_all-stops acc after (event ∷ events) h e s =
      let (next, pushed, rest) =
        bind-ok (push j acc event) (λ (q : Accumulator V). push_all j q events) after e in
      elim (Bool-cases next.stopped) [
        | inl stop ↦
            let ended = push_all-ended next after events stop rest in
            let last : event ≡ StreamEvent.message_stop =
              elim (push-stopped acc next event pushed).1 [
                | inl run ↦ ground (arith, stop, run)
                | inr e ↦ e
              ] in
            ([], cc (ended, last))
        | inr go ↦
            let (before, shape) = push_all-stops next after events go rest s in
            (event ∷ before, ap (λ (l : List (StreamEvent V)). event ∷ l) shape)
      ]

  finish-stopped :
      (acc : Accumulator V) (response : ModelResponse V)
      → finish acc ≡ ok response
      → acc.stopped ≡ true
  unfolding finish
  finish-stopped acc response e = ground arith

  start-shape :
      (event : StreamEvent V)
      → is_start event ≡ true
      → (id : Option Text) × (model : Text) × (usage : Usage) × (event
          ≡ StreamEvent.message_start id model usage)
  unfolding is_start
  start-shape (StreamEvent.message_start id model usage) h = (id, model, usage, refl)
  start-shape (StreamEvent.block_start index block) h = ground arith
  start-shape (StreamEvent.text_delta index text) h = ground arith
  start-shape (StreamEvent.thinking_delta index text) h = ground arith
  start-shape (StreamEvent.signature_delta index text) h = ground arith
  start-shape (StreamEvent.tool_input_delta index text) h = ground arith
  start-shape (StreamEvent.block_stop index) h = ground arith
  start-shape (StreamEvent.message_delta stop_reason usage) h = ground arith
  start-shape (StreamEvent.usage_snapshot model usage iterations) h = ground arith
  start-shape StreamEvent.message_stop h = ground arith

  first-shape :
      (acc : Accumulator V) (event : StreamEvent V) (events : List (StreamEvent V))
      → push_all j empty (event ∷ events) ≡ ok acc
      → (id : Option Text) × (model : Text) × (usage : Usage) × (event
          ≡ StreamEvent.message_start id model usage)
  unfolding push_all
  first-shape acc event events e =
      let (next, pushed, rest) =
        bind-ok (push j empty event) (λ (q : Accumulator V). push_all j q events) acc e in
      start-shape event (push-header next event pushed)

  from_first :
      (before events : List (StreamEvent V)) (acc : Accumulator V)
      → events ≡ before ++ StreamEvent.message_stop ∷ []
      → push_all j empty events ≡ ok acc
      → (id : Option Text) × (model : Text) × (usage : Usage) × (middle : List (StreamEvent V))
        × (events
            ≡ StreamEvent.message_start id model usage ∷ (middle ++ StreamEvent.message_stop ∷ []))
  from_first [] events acc shape run =
      let (id, model, usage, e) =
        first-shape acc StreamEvent.message_stop [] (ap (push_all j empty) (sym shape) ∙ run) in
      ground arith
  from_first (event ∷ middle) events acc shape run =
      let tail = middle ++ StreamEvent.message_stop ∷ [] in
      let (id, model, usage, e) =
        first-shape acc event tail (ap (push_all j empty) (sym shape) ∙ run) in
      (id, model, usage, middle, shape ∙ ap (λ (x : StreamEvent V). x ∷ tail) e)

  -- When a stream of events is collected into a response, it starts with `message_start` and ends
  -- with `message_stop`.
  pub collect-shape :
      (events : List (StreamEvent V)) (response : ModelResponse V)
      → collect j events ≡ ok response
      → (id : Option Text) × (model : Text) × (usage : Usage) × (middle : List (StreamEvent V))
        × (events
            ≡ StreamEvent.message_start id model usage ∷ (middle ++ StreamEvent.message_stop ∷ []))
  unfolding collect empty
  collect-shape events response e =
      let (acc, run, finished) = bind-ok (push_all j empty events) finish response e in
      let (before, shape) =
        push_all-stops empty acc events refl run (finish-stopped acc response finished) in
      from_first before events acc shape run
