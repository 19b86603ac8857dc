-- ===== src/Mailbox/Envelopes.antt =====
-- crates/core/src/messages.rs: envelopes, their kinds, and the state of a mailbox.
use kyora.Base.{ℕ, Bool, Option, List, Text, codes}

-- crates/core/src/runtime.rs, `Status`
pub data Status : Type 0 where
  completed max_turns budget_exhausted timeout context_exhausted : Status
  cancelled refused failed interrupted : Status

pub data MessageKind : Type 0 where
  message result error cancelled : MessageKind

-- `MessageKind::for_status`
unfoldable pub for_status : Status → MessageKind
for_status Status.completed = MessageKind.result
for_status Status.cancelled = MessageKind.cancelled
for_status _ = MessageKind.error

-- `MessageKind::as_str`
unfoldable pub as_str : MessageKind → Text
as_str MessageKind.message = codes "message"
as_str MessageKind.result = codes "result"
as_str MessageKind.error = codes "error"
as_str MessageKind.cancelled = codes "cancelled"

-- Times are opaque to the mailbox: nanoseconds.
pub record Envelope : Type 0 where
  pub id : ℕ
  pub from : ℕ
  pub to : ℕ
  pub kind : MessageKind
  pub body : Text
  pub sent_at : ℕ
  pub spawn : Option ℕ
  pub status : Option Status

-- Sets of node identifiers are ascending lists.
pub record Mailbox : Type 0 where
  pub queue : List Envelope
  pub plain : ℕ
  pub reserved : ℕ
  pub awaiting : List ℕ
  pub closed : Bool
  pub turn : ℕ
  pub concluded : List ℕ
  pub seen : List ℕ
  pub version : ℕ
