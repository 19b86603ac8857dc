-- ===== src/Ledger.antt =====
-- crates/core/src/ledger.rs: admission and accounting for the tree of node scopes. Each method is
-- one function of the state that the mutex protects, so concurrent callers are sequences of calls.
pub mod Defaults
mod Scopes
pub mod Ancestors
pub mod Invariant
mod Updates
mod Admission
pub mod Reserving
pub mod Settling
mod Ending
pub mod Reach
pub mod Numbering
pub mod Budget
pub mod Estimates
mod Tests
pub use Scopes.*
unfoldable pub use Scopes.{remaining, over_limit}
use kyora.Base.{
  ℕ, zero, suc, ◌-◌, min, ◌≡◌, Bool, true, false, not, ◌&&◌, ◌||◌, Option, none, some, List, [],
  ◌∷◌, ◌++◌, map, String, ltb, leb, ◌==◌, if◌then◌else◌, length, get_elem?, modify, modify_each,
  any, Outcome, ok, err, panic, ◌>>=◌, ◌>>◌, ok_or, expect,
}
use kyora.Base.Maps.{lookup, insert, erase}
use kyora.Base.Words.{add32, sub32, add64, sub64, u32_mod}
use kyora.Protocol.Counters.{Usage, zero_usage, total, add}
use kyora.Provider.{AttemptCharge}
use Defaults.{Limits, min_output_tokens}
use Ancestors.{path}

abbrev pub fail_if {ℓ} : {E : Type ℓ} → Bool → E → Outcome E (Unit {0})
fail_if b e = if b then err e else ok tt

pub remaining_at : List Scope → ℕ → ℕ
unfolding remaining
remaining_at xs i = elim (get_elem? xs i) [ none ↦ 0 | some n ↦ remaining n.budget ]

pub new_scope : Option ℕ → ℕ → Bool → ℕ → Scope
new_scope parent depth agent limit = record {
  parent = parent;
  depth = depth;
  agent = agent;
  alive = true;
  admission_closed = false;
  budget = record { limit = limit; used = 0; reserved = 0; closed = false };
  usage = zero_usage;
  own = zero_usage;
}

-- `Ledger::new`, on limits that `validate` has let through.
unfoldable pub initial : Limits → State
unfolding new_scope
initial limits = record {
  scopes = new_scope none 0 true limits.budget_tokens ∷ [];
  total = 1;
  live = 1;
  llm = 0;
  next_attempt = 0;
  attempts = [];
}

-- `u32::from(agent)`
abbrev pub from_bool : Bool → ℕ
from_bool true = 1
from_bool false = 0

-- The four admission limits, in the order in which they are tested.
pub check_limits : Limits → State → ℕ → Bool → Outcome RecursionError (Unit {0})
check_limits l s depth agent = do
  fail_if (agent && ltb l.max_depth depth) (RecursionError.limit_exceeded "depth")
  fail_if (agent && leb l.max_agents_live s.live) (RecursionError.limit_exceeded "agents_live")
  fail_if (agent && leb l.max_agents_total s.total) (RecursionError.limit_exceeded "agents_total")
  fail_if (not agent && leb l.max_llm_calls s.llm) (RecursionError.limit_exceeded "llm_calls")

-- `limit == Some(0)`
abbrev pub is_zero : Option ℕ → Bool
is_zero none = false
is_zero (some n) = n == 0

abbrev pub unwrap_or : Option ℕ → ℕ → ℕ
unwrap_or none d = d
unwrap_or (some n) d = n

pub count_node : Bool → State → State
unfolding add32
count_node true s = record s { total = add32 s.total 1; live = add32 s.live 1 }
count_node false s = record s { llm = add32 s.llm 1 }

-- `Ledger::admit`. Every test comes before the first change, so an error leaves the state alone.
pub admit : Limits → State → ℕ → Bool → Option ℕ → Outcome RecursionError (ℕ × State)
unfolding check_limits count_node new_scope path remaining_at add32
admit limits s parent agent limit = do
  p ← ok_or (get_elem? s.scopes parent) (RecursionError.invalid_request "unknown parent")
  fail_if (not p.alive || p.admission_closed) RecursionError.cancelled
  let depth = add32 p.depth (from_bool agent)
  check_limits limits s depth agent
  fail_if (is_zero limit) (RecursionError.invalid_request "budget must be positive")
  ids ← expect (path s.scopes parent)
  fail_if (any (λ i. remaining_at s.scopes i == 0) ids) RecursionError.budget_exceeded
  let budget = min (unwrap_or limit limits.budget_tokens) p.budget.limit
  let id = length s.scopes
  fail_if (leb u32_mod id) (RecursionError.invalid_request "node identifiers exhausted")
  let scopes = s.scopes ++ new_scope (some parent) depth agent budget ∷ []
  ok (id, count_node agent (record s { scopes = scopes }))

-- The least headroom on a path; `unwrap_or(0)` for an empty one.
abbrev pub min_of : List ℕ → ℕ
min_of [] = 0
min_of (n ∷ []) = n
min_of (n ∷ m ∷ ns) = min n (min_of (m ∷ ns))

pub headroom : List Scope → List ℕ → ℕ
unfolding remaining_at
headroom scopes ids = min_of (map (λ i. remaining_at scopes i) ids)

pub add_reserved : ℕ → Scope → Scope
unfolding add64
add_reserved tokens n = record n {
  budget = record (n.budget) { reserved = add64 n.budget.reserved tokens };
}

pub can_work : Option Scope → Bool
can_work none = false
can_work (some n) = n.alive && not n.admission_closed

-- `Ledger::reserve`; here too an error leaves the state alone.
unfoldable pub reserve : State → ℕ → ℕ → ℕ → Outcome String (Reservation × State)
unfolding path headroom add_reserved can_work add64
reserve s node prompt_estimate requested = do
  fail_if (requested == 0) "max_tokens must be positive"
  fail_if (not (can_work (get_elem? s.scopes node))) "node is shut down"
  ids ← expect (path s.scopes node)
  let room = headroom s.scopes ids
  let available = room - prompt_estimate
  let cap = min requested available
  fail_if (ltb cap (min min_output_tokens requested) || ltb room prompt_estimate) "budget exhausted"
  let tokens = add64 prompt_estimate cap
  let id = s.next_attempt
  ok (
    record { id = id; tokens = tokens; max_tokens = cap },
    record s {
      scopes = modify_each (add_reserved tokens) ids s.scopes;
      next_attempt = add64 id 1;
      attempts = insert id (node, tokens) s.attempts;
    },
  )

-- What a charge amounts to, and the usage that it is recorded as.
pub charge_of : ℕ → Charge → ℕ × Usage
charge_of tokens (Charge.usage u) = (total u, u)
charge_of tokens (Charge.failed AttemptCharge.zero) = (0, zero_usage)
charge_of tokens (Charge.failed AttemptCharge.reserved) =
    (tokens, record zero_usage { input_tokens = tokens })

-- One scope's share of a settlement.
pub settle_scope : ℕ → ℕ → Usage → Scope → Scope
unfolding over_limit
settle_scope tokens charged usage n =
    let budget = record (n.budget) {
      reserved = sub64 n.budget.reserved tokens;
      used = add64 n.budget.used charged;
    } in
    record n {
      budget = record budget { closed = budget.closed || over_limit budget };
      usage = add n.usage usage;
    }

pub add_own : Usage → Scope → Scope
add_own usage n = record n { own = add n.own usage }

-- `Ledger::settle`. It panics on a reservation that is not outstanding.
unfoldable pub settle : State → Reservation → Charge → Outcome String (Settlement × State)
unfolding charge_of settle_scope add_own path
settle s reservation charge = do
  (node, tokens) ← expect (lookup reservation.id s.attempts)
  let (charged, usage) = charge_of tokens charge
  ids ← expect (path s.scopes node)
  let scopes = modify_each (settle_scope tokens charged usage) ids s.scopes
  ok (
    record { charged = charged; excess = charged - tokens },
    record s {
      scopes = modify (add_own usage) node scopes;
      attempts = erase reservation.id s.attempts;
    },
  )

pub close_node : Scope → Scope
close_node n = record n { admission_closed = true }

-- `Ledger::close_admission`
pub close_admission : State → ℕ → Outcome String State
unfolding close_node
close_admission s node = do
  n ← expect (get_elem? s.scopes node)
  ok (record s { scopes = modify close_node node s.scopes })

pub shut : Scope → Scope
shut n = record n { alive = false }

-- `Ledger::shutdown`
pub shutdown : State → ℕ → Outcome String State
unfolding shut sub32
shutdown s node = do
  n ← expect (get_elem? s.scopes node)
  ok (
      if n.alive
      then record s {
        scopes = modify shut node s.scopes;
        live = if n.agent then sub32 s.live 1 else s.live;
      }
      else s)

-- `Ledger::snapshot`
pub snapshot : State → ℕ → Outcome String BudgetSnapshot
snapshot s node = do n ← expect (get_elem? s.scopes node); ok n.budget

-- `Ledger::usage`
pub usage : State → ℕ → Outcome String (Usage × Usage)
usage s node = do n ← expect (get_elem? s.scopes node); ok (n.own, n.usage)
