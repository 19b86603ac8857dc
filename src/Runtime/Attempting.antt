-- ===== src/Runtime/Attempting.antt =====
-- crates/core/src/runtime.rs, `attempts`, among the other callers of the ledger: the attempts of one
-- request as a sequence of steps, which the steps of others interleave.
use kyora.Base.{ℕ, ◌+◌, ◌<◌, ◌≡◌, Bool, Option, none, some, List, [], ◌∷◌, String, ok, err}
use kyora.Base.Words.{u64_mod}
use kyora.Provider.{AttemptCharge}
use kyora.Provider.Retry.{RetryPolicy}
use kyora.Ledger.{State, Reservation, Settlement, Charge, reserve, settle}
use kyora.Ledger.Defaults.{Limits}
use kyora.Ledger.Reach as Calls
use kyora.Ledger.Numbering.{Spares}
use package.kyora.Runtime.World.{CallError}
use package.kyora.Runtime.Attempts.{
  Dispatch, dispatch_result, charge_result, drop_charge, Ended, Phase, Aftermath, untraced, stopped,
  after_attempt,
}

-- The ledger, the phase of the request, and the identifiers that the ledger gave to its attempts, the
-- latest first.
pub record Progress (V : Type 0) : Type 0 where
  pub ledger : State
  pub phase : Phase V
  pub made : List ℕ

-- The attempt that is open in a phase.
abbrev pub held : {V : Type 0} → Phase V → Option Reservation
held (Phase.waiting _ _ _) = none
held (Phase.holding _ _ r) = some r
held (Phase.ended _) = none

module _ {V : Type 0} (l : Limits) (policy : RetryPolicy) (jitter : ℕ → ℕ) (node prompt : ℕ) where
  -- One step. Others spare the attempt that is held here, and fewer than 2^64 are numbered.
  pub data Step (p : Progress V) : Progress V → Type 0 where
    other :
        (s : State) (step : Calls.Step l p.ledger s)
        → ((r : Reservation) → held p.phase ≡ some r → Spares r.id step)
        → Step p (record p { ledger = s })
    cancelled :
        (failures unhinted cap : ℕ)
        → p.phase ≡ Phase.waiting failures unhinted cap
        → Step p (record p { phase = stopped })
    refused :
        (failures unhinted cap : ℕ) (e : String)
        → p.phase ≡ Phase.waiting failures unhinted cap
        → reserve p.ledger node prompt cap ≡ err e
        → Step p (record p { phase = Phase.ended (Ended.failed CallError.budget) })
    reserved :
        (failures unhinted cap : ℕ) (r : Reservation) (s : State)
        → p.phase ≡ Phase.waiting failures unhinted cap
        → p.ledger.next_attempt + 1 < u64_mod
        → reserve p.ledger node prompt cap ≡ ok (r, s)
        → Step p
            (record { ledger = s; phase = Phase.holding failures unhinted r; made = r.id ∷ p.made })
    unrecorded :
        (failures unhinted : ℕ) (r : Reservation) (x : Settlement) (s : State)
        → p.phase ≡ Phase.holding failures unhinted r
        → settle p.ledger r (Charge.failed AttemptCharge.zero) ≡ ok (x, s)
        → Step p (record p { ledger = s; phase = untraced })
    dropped :
        (dispatched : Bool) (failures unhinted : ℕ) (r : Reservation) (x : Settlement) (s : State)
        → p.phase ≡ Phase.holding failures unhinted r
        → settle p.ledger r (drop_charge dispatched) ≡ ok (x, s)
        → Step p (record p { ledger = s; phase = Phase.ended Ended.dropped })
    settled :
        (d : Dispatch V) (a : Aftermath) (failures unhinted : ℕ) (r : Reservation) (x : Settlement)
        (s : State)
        → p.phase ≡ Phase.holding failures unhinted r
        → settle p.ledger r (charge_result (dispatch_result d)) ≡ ok (x, s)
        → Step p (record p {
          ledger = s;
          phase = after_attempt policy jitter a (dispatch_result d) failures unhinted r.max_tokens;
        })

  -- A request that begins in some state of the ledger, with its output cap.
  abbrev pub begun : State → ℕ → Progress V
  begun s cap = record { ledger = s; phase = Phase.waiting 0 0 cap; made = [] }

  pub data Reach (start : State) (cap : ℕ) : Progress V → Type 0 where
    here : Reach start cap (begun start cap)
    next : {p q : Progress V} → Reach start cap p → Step p q → Reach start cap q
