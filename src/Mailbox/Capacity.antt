-- ===== src/Mailbox/Capacity.antt =====
-- crates/core/src/messages.rs: the invariant of a mailbox, call by call.
use kyora.Base.{
  ℕ, ◌+◌, ◌-◌, ◌≤◌, ◌<◌, ◌≡◌, refl, Bool, true, List, [], ◌∷◌, arith, ◌==◌, count, count-append,
}
use kyora.Base.Words.{add64_exact, sub64, sub64_exact, u64_mod}
use kyora.Mailbox.{
  Envelope, Mailbox, Taking, take_one, run_take, start_taking, take, is_message, empty, wake,
  reserve, consume, enqueue, push, stage, charge, idle,
}

-- The counter is the number of queued plain messages, which with the reserved ones stays within the
-- capacity; a closed mailbox is empty.
pub record Inv (capacity : ℕ) (m : Mailbox) : Type 0 where
  pub counted : m.plain ≡ count is_message m.queue
  pub bounded : m.plain + m.reserved ≤ capacity
  pub drained : m.closed ≡ true → m.queue ≡ []

-- Each envelope of the queue is taken or stays.
take_one-count :
    (p : Envelope → Bool) (budget : ℕ) (pick : Envelope → Bool) (size : Envelope → ℕ) (fresh : Bool)
    (e : Envelope) (t : Taking)
    → let r = take_one budget pick size fresh e t in
      count p r.taken + count p r.rest ≡ count p t.taken + count p t.rest + count p (e ∷ [])
unfolding take_one
take_one-count p budget pick size fresh e t =
    ground (arith, count-append p t.taken (e ∷ []), count-append p t.rest (e ∷ []))

run_take-count :
    (p : Envelope → Bool) (budget : ℕ) (pick : Envelope → Bool) (size : Envelope → ℕ) (fresh : Bool)
    (es : List Envelope) (t : Taking)
    → let r = run_take budget pick size fresh es t in
      count p r.taken + count p r.rest ≡ count p t.taken + count p t.rest + count p es
unfolding run_take
run_take-count p budget pick size fresh [] t = omega arith
run_take-count p budget pick size fresh (e ∷ es) t = omega (
  arith,
  run_take-count p budget pick size fresh es (take_one budget pick size fresh e t),
  take_one-count p budget pick size fresh e t,
)

pub take-count :
    (p : Envelope → Bool) (m : Mailbox) (budget : ℕ) (pick : Envelope → Bool) (size : Envelope → ℕ)
    → let (batch, m') = take m budget pick size in
      count p m.queue ≡ count p batch.taken + count p m'.queue
unfolding take start_taking
take-count p m budget pick size =
    omega (arith, run_take-count p budget pick size (m.turn == 0) m.queue (start_taking m.turn))

module _ (capacity : ℕ) (word : capacity < u64_mod) where
  pub empty-Inv : Inv capacity empty
  unfolding empty
  empty-Inv = record { counted = refl; bounded = omega arith; drained = λ c. refl }

  pub reserve-Inv : (m : Mailbox) → Inv capacity m → Inv capacity (reserve m capacity).1
  unfolding reserve
  reserve-Inv m v =
      ground (arith, add64_exact m.plain m.reserved, add64_exact m.reserved 1, v.drained)

  pub push-Inv :
      (m : Mailbox) (e : Envelope)
      → (is_message e ≡ true → 0 < m.reserved)
      → Inv capacity m
      → Inv capacity (push m e).1
  unfolding push consume enqueue wake
  push-Inv m e h v = ground (
    arith,
    v.drained,
    sub64_exact m.reserved 1,
    add64_exact m.plain 1,
    add64_exact m.plain 0,
    count-append is_message m.queue (e ∷ []),
  )

  pub take-Inv :
      (m : Mailbox) (budget : ℕ) (pick : Envelope → Bool) (size : Envelope → ℕ)
      → Inv capacity m
      → Inv capacity (take m budget pick size).1
  unfolding take start_taking run_take
  take-Inv m budget pick size v =
      let t = run_take budget pick size (m.turn == 0) m.queue (start_taking m.turn) in
      let all =
        run_take-count is_message budget pick size (m.turn == 0) m.queue (start_taking m.turn) in
      let exact : sub64 m.plain (count is_message t.taken) ≡ m.plain - count is_message t.taken =
        sub64_exact m.plain (count is_message t.taken) (omega (arith, v.counted))
          (omega (arith, v.bounded)) in
      record {
        counted = omega (arith, exact, v.counted);
        bounded = omega (arith, exact, v.bounded);
        drained = λ c. rw (v.drained c);
      }

  pub stage-Inv : (m : Mailbox) (agent : ℕ) → Inv capacity m → Inv capacity (stage m agent).1
  unfolding stage
  stage-Inv m agent v = ground (arith, v.drained)

  pub charge-Inv :
      (m : Mailbox) (cost budget : ℕ) → Inv capacity m → Inv capacity (charge m cost budget).1
  unfolding charge
  charge-Inv m cost budget v = ground (arith, v.drained)

  pub idle-Inv :
      (m : Mailbox) (closing : Bool) (budget : ℕ) (size : Envelope → ℕ)
      → Inv capacity m
      → Inv capacity (idle m closing budget size).1
  unfolding idle
  idle-Inv m closing budget size v = by_queue m.queue refl
    where
      by_queue : (q : List Envelope) → m.queue ≡ q → Inv capacity (idle m closing budget size).1
      by_queue [] e = ground (arith, v)
      by_queue (x ∷ q) e = ground (arith, take-Inv m budget (λ _. true) size v)
