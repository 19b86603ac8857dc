-- ===== src/Mailbox/Tests.antt =====
-- A mailbox run on small inputs: two messages of one agent and the notice that a child has ended.
use kyora.Base.{
  ℕ, ◌≡◌, refl, ◌≢◌, ◌⊎◌, Bool, true, not, ◌&&◌, none, some, [], ◌∷◌, ◌++◌, arith, ◌==◌, ◌+◌, ◌≤◌,
  length, select, count, codes, if◌then◌else◌,
}
use kyora.Base.Maps.{lookup}
use kyora.Mailbox.{
  Status, MessageKind, Envelope, Mailbox, Batch, empty, reserve, push, take, idle, or_zero,
}
use kyora.Mailbox.Capacity.{Inv}
use kyora.Mailbox.Delivery.{take_lem, take-progress}
use kyora.Mailbox.History.{Step, Reach, Reach-bounded, Reach-conserves}

message : ℕ → ℕ → Envelope
message id from = record {
  id = id;
  from = from;
  to = 0;
  kind = MessageKind.message;
  body = codes "done with the first half";
  sent_at = 0;
  spawn = none;
  status = none;
}

notice : Envelope
notice = record {
  id = 7;
  from = 2;
  to = 0;
  kind = MessageKind.result;
  body = codes "answer";
  sent_at = 0;
  spawn = some 2;
  status = some Status.completed;
}

-- Ten characters each.
ten : Envelope → ℕ
ten _ = 10

from_two : Envelope → Bool
from_two e = e.from == 2

unfoldable m1 : Mailbox
unfolding empty reserve
m1 = (reserve empty 2).1

unfoldable m2 : Mailbox
unfolding m1 push message
m2 = (push m1 (message 5 1)).1

unfoldable m3 : Mailbox
unfolding m2 push notice
m3 = (push m2 notice).1

unfoldable m4 : Mailbox
unfolding m3 take ten
m4 = (take m3 15 (λ _. true) ten).1

unfoldable first_batch : Batch
unfolding m3 take ten
first_batch = (take m3 15 (λ _. true) ten).0

taken_first : take m3 15 (λ _. true) ten ≡ (first_batch, m4)
unfolding first_batch m4
taken_first = refl

pushed_message : push m1 (message 5 1) ≡ (true, m2)
unfolding m2
pushed_message = refl

pushed_notice : push m2 notice ≡ (true, m3)
unfolding m3
pushed_notice = refl

history : Reach 2 m4 (message 5 1 ∷ notice ∷ []) (message 5 1 ∷ [])
unfolding m1 notice first_batch
history =
    Reach.next
      (Reach.next
        (Reach.next (Reach.next Reach.start (Step.reserved refl refl refl))
          (Step.pushed (message 5 1) (λ _. omega arith) pushed_message refl refl))
        (Step.pushed notice (λ e. ground arith) pushed_notice refl refl))
      (Step.taken 15 (λ _. true) ten first_batch taken_first refl refl)

Reach-bounded_example : Inv 2 m4
Reach-bounded_example = Reach-bounded 2 (omega arith) history

Reach-conserves_example :
    count from_two (message 5 1 ∷ notice ∷ [])
    ≡ count from_two (message 5 1 ∷ []) + count from_two m4.queue
Reach-conserves_example = Reach-conserves 2 from_two (omega arith) history

take_lem_example :
    let (batch, m) = take m3 15 (λ _. true) ten in
    (batch.taken ++ select (λ _. true) m.queue ≡ select (λ _. true) m3.queue)
    × (select (λ _. not true) m.queue ≡ select (λ _. not true) m3.queue)
    × ((m.turn ≤ 15) ⊎ (length batch.taken ≤ (if m3.turn == 0 then 1 else 0)))
    × ((n : ℕ) → or_zero (lookup n batch.left) ≡ count (λ x. true && n == x.from) m.queue)
    × (batch.queued ≡ length m.queue)
unfolding m3
take_lem_example = take_lem m3 15 (λ _. true) ten (omega arith)

take-progress_example : (take m3 5 from_two ten).0.taken ≢ []
unfolding m3 from_two
take-progress_example = take-progress m3 5 from_two ten refl (λ e. ground arith)

unfoldable m5 : Mailbox
unfolding m2 take ten
m5 = (take m2 60_000 (λ _. true) ten).1

unfoldable whole_batch : Batch
unfolding m2 take ten
whole_batch = (take m2 60_000 (λ _. true) ten).0

unfoldable m6 : Mailbox
unfolding m5 idle
m6 = (idle m5 true 60_000 ten).1

unfoldable m7 : Mailbox
unfolding m6 push notice
m7 = (push m6 notice).1
