-- ===== src/Mailbox.antt =====
-- crates/core/src/messages.rs: one agent's mailbox. `Mailbox` is what the mutex protects, with the
-- watch counter; each method is one function of it. A `usize` is a u64.
mod Envelopes
pub mod Texts
mod Takings
pub mod Delivery
mod Capacity
pub mod History
pub mod Idling
mod Tests
pub use Envelopes.*
pub use Takings.*
unfoldable pub use Takings.{
  is_message, insert_id, remove_id, bump, start_taking, fits, take_one, run_take, see_all,
}
use kyora.Base.{
  ℕ, zero, suc, Bool, true, false, not, ◌&&◌, ◌||◌, Option, none, some, List, [], ◌∷◌, ◌++◌, leb,
  ltb, ◌==◌, if◌then◌else◌, length, contains, count,
}
use kyora.Base.Words.{add64, sub64}

pub data Refusal : Type 0 where
  full closed : Refusal

pub data Idle : Type 0 where
  deliver : Batch → Idle
  wait done : Idle

-- `Mailbox::default`
unfoldable pub empty : Mailbox
empty = record {
  queue = [];
  plain = 0;
  reserved = 0;
  awaiting = [];
  closed = false;
  turn = 0;
  concluded = [];
  seen = [];
  version = 0;
}

-- `version.wrapping_add(1)`; `touch` is this alone.
pub wake : Mailbox → Mailbox
unfolding add64
wake m = record m { version = add64 m.version 1 }

-- `Mailbox::reserve`: `none` when room was reserved, or the refusal.
pub reserve : Mailbox → ℕ → Option Refusal × Mailbox
unfolding add64
reserve m capacity =
    if m.closed
    then (some Refusal.closed, m)
    else if leb capacity (add64 m.plain m.reserved)
    then (some Refusal.full, m)
    else (none, record m { reserved = add64 m.reserved 1 })

-- `Mailbox::expect`
pub expect_child : Mailbox → ℕ → Mailbox
unfolding wake insert_id
expect_child m child = wake (record m { awaiting = insert_id child m.awaiting })

-- A plain message consumes its reservation, a notice clears its child.
pub consume : Mailbox → Envelope → Mailbox
unfolding is_message sub64 insert_id remove_id
consume m e = if is_message e then record m { reserved = sub64 m.reserved 1 } else record m {
  awaiting = remove_id e.from m.awaiting;
  concluded = insert_id e.from m.concluded;
}

-- `usize::from(bool)`
abbrev pub from_bool : Bool → ℕ
from_bool true = 1
from_bool false = 0

pub enqueue : Mailbox → Envelope → Mailbox
unfolding is_message add64
enqueue m e = record m {
  plain = add64 m.plain (from_bool (is_message e));
  queue = m.queue ++ e ∷ [];
}

-- `Mailbox::push`: true when the envelope was queued, false when it comes back to its sender.
pub push : Mailbox → Envelope → Bool × Mailbox
unfolding consume enqueue wake
push m e =
    let m' = consume m e in if m'.closed then (false, wake m') else (true, wake (enqueue m' e))

-- `Mailbox::stage`
pub stage : Mailbox → ℕ → Bool × Mailbox
unfolding insert_id
stage m agent =
    if m.closed || contains agent m.awaiting || contains agent m.concluded then (false, m) else (
      true,
      record m { concluded = insert_id agent m.concluded; awaiting = insert_id agent m.awaiting },
    )

-- `Mailbox::saw`
pub saw : Mailbox → ℕ → Mailbox
unfolding insert_id
saw m agent = record m { seen = insert_id agent m.seen }

-- `Mailbox::charge`
pub charge : Mailbox → ℕ → ℕ → Bool × Mailbox
unfolding add64
charge m cost budget =
    if ltb 0 m.turn && ltb budget (add64 m.turn cost)
    then (false, m)
    else (true, record m { turn = add64 m.turn cost })

-- `Mailbox::new_turn`
unfoldable pub new_turn : Mailbox → Mailbox
new_turn m = record m { turn = 0 }

-- `take`
unfoldable pub take : Mailbox → ℕ → (Envelope → Bool) → (Envelope → ℕ) → Batch × Mailbox
unfolding run_take start_taking is_message sub64 insert_id
take m budget pick size =
    let t = run_take budget pick size (m.turn == 0) m.queue (start_taking m.turn) in
    (
      record { taken = t.taken; left = t.left; queued = length t.rest },
      record m {
        queue = t.rest;
        turn = t.used;
        seen = see_all t.taken m.seen;
        plain = sub64 m.plain (count is_message t.taken);
      },
    )

abbrev pub is_empty {ℓ} : {A : Type ℓ} → List A → Bool
is_empty [] = true
is_empty (_ ∷ _) = false

-- `Mailbox::idle`
unfoldable pub idle : Mailbox → Bool → ℕ → (Envelope → ℕ) → Idle × Mailbox
unfolding take
idle m close budget size =
    if not (is_empty m.queue)
    then (let (batch, m') = take m budget (λ _. true) size in (Idle.deliver batch, m'))
    else if is_empty m.awaiting && m.reserved == 0
    then (Idle.done, record m { closed = m.closed || close })
    else (Idle.wait, m)

-- `Mailbox::close`: the envelopes that nobody will deliver.
pub close : Mailbox → List Envelope × Mailbox
unfolding wake
close m = (m.queue, wake (record m { closed = true; plain = 0; queue = [] }))

-- `Mailbox::is_concluded`, `has_seen`, `is_closed`, `len` and `is_awaiting`
pub is_concluded : Mailbox → ℕ → Bool
is_concluded m child = contains child m.concluded

pub has_seen : Mailbox → ℕ → Bool
has_seen m agent = contains agent m.seen

pub is_closed : Mailbox → Bool
is_closed m = m.closed

pub len : Mailbox → ℕ
len m = length m.queue

pub is_awaiting : Mailbox → ℕ → Bool
is_awaiting m child = contains child m.awaiting

-- The senders of the queued notices.
pub notices_from : List Envelope → List ℕ
unfolding is_message
notices_from [] = []
notices_from (e ∷ es) = if is_message e then notices_from es else e.from ∷ notices_from es

pub insert_all : List ℕ → List ℕ → List ℕ
unfolding insert_id
insert_all [] s = s
insert_all (n ∷ ns) s = insert_all ns (insert_id n s)

-- `Mailbox::outstanding`
pub outstanding : Mailbox → List ℕ
unfolding notices_from insert_all
outstanding m = insert_all (notices_from m.queue ++ m.awaiting) []
