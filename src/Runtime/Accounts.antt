-- ===== src/Runtime/Accounts.antt =====
-- crates/core/src/runtime.rs, `attempts`: what the attempts of a request are at any moment.
use kyora.Base.{ℕ, suc, ◌+◌, ◌<◌, ◌≤◌, ◌≡◌, none, some, List, [], ◌∷◌, arith, length}
use kyora.Base.Maps.{lookup}
use kyora.Provider.Retry.{RetryPolicy}
use kyora.Ledger.{State, Reservation}
use kyora.Ledger.Defaults.{Limits}
use kyora.Ledger.Invariant.{Inv}
use kyora.Ledger.Numbering.{Spent}
use package.kyora.Runtime.Attempts.{Phase}
use package.kyora.Runtime.Attempting.{Progress, held}

abbrev pub AllSpent : State → List ℕ → Type 0
AllSpent s [] = Unit {0}
AllSpent s (id ∷ ids) = Spent s id × AllSpent s ids

-- The identifiers that were given fall, the latest being the greatest.
abbrev pub Falls : ℕ → List ℕ → Type 0
Falls bound [] = Unit {0}
Falls bound (id ∷ ids) = (id < bound) × Falls id ids

-- The attempts that a phase allows: only the one that is held is open, and all others are spent.
abbrev pub Closed : {V : Type 0} → State → Phase V → List ℕ → Type 0
Closed s (Phase.waiting _ _ _) ids = AllSpent s ids
Closed s (Phase.holding _ _ r) [] = ⊥
Closed s (Phase.holding _ _ r) (id ∷ ids) = (id ≡ r.id) × AllSpent s ids
Closed s (Phase.ended _) ids = AllSpent s ids

-- How many attempts a phase allows to have been made.
abbrev pub Allowed : {V : Type 0} → RetryPolicy → Phase V → ℕ → Type 0
Allowed policy (Phase.waiting failures _ _) n = (n ≡ failures) × (failures ≤ policy.max_retries)
Allowed policy (Phase.holding failures _ _) n = (n ≡ suc failures) × (failures ≤ policy.max_retries)
Allowed policy (Phase.ended _) n = n ≤ policy.max_retries + 1

-- What holds at any moment of a request. The ledger's invariant; the attempt that is held is in the
-- table with its tokens; of the attempts that the ledger gave to the request, all different, only
-- that one is in the table, and it is the latest; and they are at most one more than the maximum of
-- retries.
pub record Accounted {V : Type 0} (l : Limits) (policy : RetryPolicy) (node : ℕ) (p : Progress V)
    : Type 0 where
  pub sound : Inv l p.ledger
  pub open_attempt :
      (r : Reservation)
      → held p.phase ≡ some r
      → lookup r.id p.ledger.attempts ≡ some (node, r.tokens)
  pub closed : Closed p.ledger p.phase p.made
  pub distinct : Falls p.ledger.next_attempt p.made
  pub allowed : Allowed policy p.phase (length p.made)

pub all_kept :
    (s s' : State) (ids : List ℕ)
    → ((id : ℕ) → Spent s id → Spent s' id)
    → AllSpent s ids
    → AllSpent s' ids
all_kept s s' [] keep a = tt
all_kept s s' (id ∷ ids) keep a = (keep id (a.0), all_kept s s' ids keep (a.1))

-- What closed attempts need is only that spent ones stay spent.
pub Closed-kept :
    {V : Type 0} (s s' : State) (phase : Phase V) (ids : List ℕ)
    → ((id : ℕ) → Spent s id → Spent s' id)
    → Closed s phase ids
    → Closed s' phase ids
Closed-kept s s' (Phase.waiting f u m) ids keep c = all_kept s s' ids keep c
Closed-kept s s' (Phase.holding f u r) [] keep c = absurd c
Closed-kept s s' (Phase.holding f u r) (id ∷ ids) keep c = (c.0, all_kept s s' ids keep (c.1))
Closed-kept s s' (Phase.ended e) ids keep c = all_kept s s' ids keep c

-- Without an attempt that is held, all are spent.
pub Closed-unheld :
    {V : Type 0} (s : State) (phase : Phase V) (ids : List ℕ)
    → held phase ≡ none
    → AllSpent s ids
    → Closed s phase ids
Closed-unheld s (Phase.waiting f u m) ids h c = c
Closed-unheld s (Phase.holding f u r) ids h c = cc
Closed-unheld s (Phase.ended e) ids h c = c

pub Falls-mono : (a b : ℕ) (ids : List ℕ) → a ≤ b → Falls a ids → Falls b ids
Falls-mono a b [] h f = tt
Falls-mono a b (id ∷ ids) h f = (omega (arith, f.0), f.1)

-- Once the attempt that is held is settled, all are spent.
pub settle-AllSpent :
    (V : Type 0) (s s' : State) (failures unhinted : ℕ) (r : Reservation) (ids : List ℕ)
    → Closed {V = V} s (Phase.holding failures unhinted r) ids
    → Spent s' r.id
    → ((id : ℕ) → Spent s id → Spent s' id)
    → AllSpent s' ids
settle-AllSpent V s s' failures unhinted r [] c spent keep = absurd c
settle-AllSpent V s s' failures unhinted r (id ∷ ids) c spent keep =
    (rw (c.0) spent, all_kept s s' ids keep (c.1))
