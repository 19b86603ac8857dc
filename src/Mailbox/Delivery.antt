-- ===== src/Mailbox/Delivery.antt =====
-- crates/core/src/messages.rs, `take`: what one delivery hands over and what it leaves.
use mathlib.Core.List.{append-nil, append_assoc}
use kyora.Base.{
  ℕ, ◌+◌, ◌≤◌, ◌<◌, ◌≡◌, refl, ◌∙◌, sym, ap, ◌≢◌, ◌⊎◌, inl, inr, Bool, true, false, not, ◌&&◌, List,
  [], ◌∷◌, ◌++◌, arith, ◌==◌, if◌then◌else◌, length, select, select-append, count, count-append,
  length-append, count-le-length, Bool-cases,
}
use kyora.Base.Words.{add64, add64_exact, u64_mod}
use kyora.Base.Maps.{lookup, lookup-insert}
use kyora.Mailbox.{
  Envelope, Mailbox, Taking, fits, bump, take_one, run_take, start_taking, none_yet, take, or_zero,
}

none_yet-append : (es : List Envelope) (e : Envelope) → none_yet (es ++ e ∷ []) ≡ false
none_yet-append [] e = refl
none_yet-append (x ∷ es) e = refl

none_yet-length : (es : List Envelope) → none_yet es ≡ true → length es ≡ 0
none_yet-length [] h = refl
none_yet-length (x ∷ es) h = cc

module _ (budget : ℕ) (pick : Envelope → Bool) (size : Envelope → ℕ) (fresh : Bool) where
  -- Until the delivery is full every selected envelope has been taken.
  abbrev pub Prompt : Taking → Type 0
  Prompt t = (t.is_full ≡ true) ⊎ (select pick t.rest ≡ [])

  take_one-Prompt :
      (e : Envelope) (t : Taking) → Prompt t → Prompt (take_one budget pick size fresh e t)
  unfolding take_one fits
  take_one-Prompt e t (inl full) = inl (ground arith)
  take_one-Prompt e t (inr all) = ground (arith, select-append pick t.rest (e ∷ []))

  take_one-order :
      (e : Envelope) (t : Taking)
      → Prompt t
      → (take_one budget pick size fresh e t).taken
          ++ select pick (take_one budget pick size fresh e t).rest
        ≡ t.taken ++ (select pick t.rest ++ select pick (e ∷ []))
  unfolding take_one fits
  take_one-order e t (inl full) = ground (arith, select-append pick t.rest (e ∷ []))
  take_one-order e t (inr all) =
      ground (arith, select-append pick t.rest (e ∷ []), append-nil (t.taken ++ e ∷ []))

  run_take-order :
      (es : List Envelope) (t : Taking)
      → Prompt t
      → (run_take budget pick size fresh es t).taken
          ++ select pick (run_take budget pick size fresh es t).rest
        ≡ t.taken ++ (select pick t.rest ++ select pick es)
  unfolding run_take
  run_take-order [] t h = rw (append-nil (select pick t.rest))
  run_take-order (e ∷ es) t h =
      let t' = take_one budget pick size fresh e t in
      run_take-order es t' (take_one-Prompt e t h)
      ∙ sym (append_assoc t'.taken (select pick t'.rest) (select pick es))
      ∙ ap (λ l. l ++ select pick es) (take_one-order e t h)
      ∙ append_assoc t.taken (select pick t.rest ++ select pick (e ∷ [])) (select pick es)
      ∙ ap (λ l. t.taken ++ l)
          (append_assoc (select pick t.rest) (select pick (e ∷ [])) (select pick es)
            ∙ ap (λ l. select pick t.rest ++ l) (sym (select-append pick (e ∷ []) es)))

  -- What is not selected keeps its place.
  take_one-others :
      (e : Envelope) (t : Taking)
      → select (λ x. not (pick x)) (take_one budget pick size fresh e t).rest
        ≡ select (λ x. not (pick x)) t.rest ++ select (λ x. not (pick x)) (e ∷ [])
  unfolding take_one
  take_one-others e t = ground (
    arith,
    select-append (λ x. not (pick x)) t.rest (e ∷ []),
    append-nil (select (λ x. not (pick x)) t.rest),
  )

  run_take-others :
      (es : List Envelope) (t : Taking)
      → select (λ x. not (pick x)) (run_take budget pick size fresh es t).rest
        ≡ select (λ x. not (pick x)) t.rest ++ select (λ x. not (pick x)) es
  unfolding run_take
  run_take-others [] t = sym (append-nil (select (λ x. not (pick x)) t.rest))
  run_take-others (e ∷ es) t =
      let keep = λ (x : Envelope). not (pick x) in
      run_take-others es (take_one budget pick size fresh e t)
      ∙ ap (λ l. l ++ select keep es) (take_one-others e t)
      ∙ append_assoc (select keep t.rest) (select keep (e ∷ [])) (select keep es)
      ∙ ap (λ l. select keep t.rest ++ l) (sym (select-append keep (e ∷ []) es))

  take_one-length :
      (e : Envelope) (t : Taking)
      → length (take_one budget pick size fresh e t).rest ≤ length t.rest + 1
  unfolding take_one
  take_one-length e t = ground (arith, length-append t.rest (e ∷ []))

  -- Only a first message of a turn goes beyond the budget.
  abbrev pub Bounded : Taking → Type 0
  Bounded t = (t.used ≤ budget) ⊎ (length t.taken ≤ (if fresh then 1 else 0))

  take_one-Bounded :
      (e : Envelope) (t : Taking) → Bounded t → Bounded (take_one budget pick size fresh e t)
  unfolding take_one fits
  take_one-Bounded e t h = ground (arith, length-append t.taken (e ∷ []), none_yet-length t.taken)

  run_take-Bounded :
      (es : List Envelope) (t : Taking) → Bounded t → Bounded (run_take budget pick size fresh es t)
  unfolding run_take
  run_take-Bounded [] t h = h
  run_take-Bounded (e ∷ es) t h =
      run_take-Bounded es (take_one budget pick size fresh e t) (take_one-Bounded e t h)

  take_one-some :
      (e : Envelope) (t : Taking)
      → none_yet t.taken ≡ false
      → none_yet (take_one budget pick size fresh e t).taken ≡ false
  unfolding take_one fits
  take_one-some e t h = ground (arith, none_yet-append t.taken e)

  run_take-some :
      (es : List Envelope) (t : Taking)
      → none_yet t.taken ≡ false
      → none_yet (run_take budget pick size fresh es t).taken ≡ false
  unfolding run_take
  run_take-some [] t h = h
  run_take-some (e ∷ es) t h =
      run_take-some es (take_one budget pick size fresh e t) (take_one-some e t h)

  -- The first selected envelope of a turn is taken.
  run_take-progress :
      (es : List Envelope) (t : Taking)
      → fresh ≡ true
      → t.is_full ≡ false
      → none_yet t.taken ≡ true
      → select pick es ≢ []
      → none_yet (run_take budget pick size fresh es t).taken ≡ false
  unfolding run_take take_one fits
  run_take-progress [] t f o n h = absurd (h refl)
  run_take-progress (e ∷ es) t f o n h = elim (Bool-cases (pick e)) [
    | inl chosen ↦
        run_take-some es (take_one budget pick size fresh e t)
          (ground (arith, none_yet-append t.taken e))
    | inr passed ↦
        run_take-progress es (take_one budget pick size fresh e t) f (ground arith) (ground arith)
          (λ k. h (ground arith))
  ]

  -- How many selected envelopes of each sender stay behind.
  abbrev pub Counted : Taking → Type 0
  Counted t = (n : ℕ) → or_zero (lookup n t.left) ≡ count (λ x. pick x && n == x.from) t.rest

  take_one-Counted :
      (e : Envelope) (t : Taking)
      → length t.rest + 1 < u64_mod
      → Counted t
      → Counted (take_one budget pick size fresh e t)
  unfolding take_one bump
  take_one-Counted e t w h n = ground (
    arith,
    h n,
    h e.from,
    count-append (λ x. pick x && n == x.from) t.rest (e ∷ []),
    lookup-insert e.from n (add64 (or_zero (lookup e.from t.left)) 1) t.left,
    count-le-length (λ x. pick x && e.from == x.from) t.rest,
    add64_exact (or_zero (lookup e.from t.left)) 1,
  )

  run_take-Counted :
      (es : List Envelope) (t : Taking)
      → length t.rest + length es < u64_mod
      → Counted t
      → Counted (run_take budget pick size fresh es t)
  unfolding run_take
  run_take-Counted [] t w h = h
  run_take-Counted (e ∷ es) t w h =
      run_take-Counted es (take_one budget pick size fresh e t) (omega (arith, take_one-length e t))
        (take_one-Counted e t (omega arith) h)

-- In a turn that has used nothing, a delivery takes something if anything queued is selected.
pub take-progress :
    (m : Mailbox) (budget : ℕ) (pick : Envelope → Bool) (size : Envelope → ℕ)
    → m.turn ≡ 0
    → select pick m.queue ≢ []
    → (take m budget pick size).0.taken ≢ []
unfolding take start_taking
take-progress m budget pick size z some_picked nothing = ground (
  arith,
  run_take-progress budget pick size (m.turn == 0) m.queue (start_taking m.turn) (ground arith) refl
      refl some_picked,
  ap none_yet nothing,
)

-- A delivery from a mailbox of fewer than 2^64 envelopes hands over the first of the selected ones
-- and keeps the others in order: the envelopes taken and then the selected ones left behind are the
-- selected ones as they were queued, and the ones not selected are untouched. The turn stays within
-- the budget unless all that is taken is one envelope, in a new turn, or nothing. For each sender it
-- reports how many selected envelopes are still queued, and how many envelopes are queued in all.
pub take_lem :
    (m : Mailbox) (budget : ℕ) (pick : Envelope → Bool) (size : Envelope → ℕ)
    → length m.queue < u64_mod
    → let (batch, m') = take m budget pick size in
      (batch.taken ++ select pick m'.queue ≡ select pick m.queue)
      × (select (λ x. not (pick x)) m'.queue ≡ select (λ x. not (pick x)) m.queue)
      × ((m'.turn ≤ budget) ⊎ (length batch.taken ≤ (if m.turn == 0 then 1 else 0)))
      × ((n : ℕ) → or_zero (lookup n batch.left) ≡ count (λ x. pick x && n == x.from) m'.queue)
      × (batch.queued ≡ length m'.queue)
unfolding take start_taking
take_lem m budget pick size w = (
  run_take-order budget pick size (m.turn == 0) m.queue (start_taking m.turn) (inr refl),
  run_take-others budget pick size (m.turn == 0) m.queue (start_taking m.turn),
  run_take-Bounded budget pick size (m.turn == 0) m.queue (start_taking m.turn) (inr (omega arith)),
  run_take-Counted budget pick size (m.turn == 0) m.queue (start_taking m.turn) (omega arith)
      (λ n. refl),
  refl,
)
