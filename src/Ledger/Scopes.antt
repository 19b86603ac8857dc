-- ===== src/Ledger/Scopes.antt =====
-- crates/core/src/ledger.rs: the scopes, the counters and the table of outstanding attempts.
use kyora.Base.{ℕ, ◌-◌, Bool, Option, List, String, ltb, if◌then◌else◌}
use kyora.Base.Words.{saturating_add64}
use kyora.Protocol.Counters.{Usage}
use kyora.Provider.{AttemptCharge}

pub record BudgetSnapshot : Type 0 where
  pub limit : ℕ
  pub used : ℕ
  pub reserved : ℕ
  pub closed : Bool

pub record Scope : Type 0 where
  pub parent : Option ℕ
  pub depth : ℕ
  pub agent : Bool
  pub alive : Bool
  pub admission_closed : Bool
  pub budget : BudgetSnapshot
  pub usage : Usage
  pub own : Usage

-- The outstanding attempts by identifier: the node and the tokens reserved for it.
abbrev pub Attempts : Type 0
Attempts = List (ℕ × (ℕ × ℕ))

pub record State : Type 0 where
  pub scopes : List Scope
  pub total : ℕ
  pub live : ℕ
  pub llm : ℕ
  pub next_attempt : ℕ
  pub attempts : Attempts

pub record Reservation : Type 0 where
  pub id : ℕ
  pub tokens : ℕ
  pub max_tokens : ℕ

pub record Settlement : Type 0 where
  pub charged : ℕ
  pub excess : ℕ

pub data Charge : Type 0 where
  usage : Usage → Charge
  failed : AttemptCharge → Charge

-- crates/core/src/recursion.rs
pub data RecursionError : Type 0 where
  limit_exceeded : String → RecursionError
  budget_exceeded : RecursionError
  invalid_request : String → RecursionError
  cancelled : RecursionError
  model_error : String → RecursionError
  mailbox_full agent_finished : ℕ → RecursionError

-- `BudgetSnapshot::remaining`
unfoldable pub remaining : BudgetSnapshot → ℕ
unfolding saturating_add64
remaining b = if b.closed then 0 else b.limit - saturating_add64 b.used b.reserved

-- `used.saturating_add(reserved) > limit`
unfoldable pub over_limit : BudgetSnapshot → Bool
unfolding saturating_add64
over_limit b = ltb b.limit (saturating_add64 b.used b.reserved)
