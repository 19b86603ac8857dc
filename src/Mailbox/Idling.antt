-- ===== src/Mailbox/Idling.antt =====
-- crates/core/src/messages.rs, `Mailbox::idle` over the lifetime of a mailbox: what `Done` promises.
use kyora.Base.{ℕ, List, [], ◌++◌}
use kyora.Mailbox.{Envelope, Mailbox}
use kyora.Mailbox.History.{Step}

-- Further calls on a mailbox, with all that they accept.
pub data Later (capacity : ℕ) (m : Mailbox) : Mailbox → List Envelope → Type 0 where
  now : Later capacity m m []
  then_call :
      {n n' : Mailbox} {more accepted handed : List Envelope}
      → Later capacity m n more
      → Step capacity n n' accepted handed
      → Later capacity m n' (more ++ accepted)
