-- ===== src/Runtime/Attempts.antt =====
-- crates/core/src/runtime.rs, `attempts` and `ReservationGuard`: the attempts of one model request.
-- Each holds a slot and a reservation in the ledger; what the provider, the clock and the trace do
-- is data.
use kyora.Base.{ℕ, Bool, not, ◌&&◌, Option, none, some, List, Text, codes, if◌then◌else◌}
use kyora.Base.Words.{add32}
use kyora.Protocol.{ModelResponse}
use kyora.Provider.{ProviderError, AttemptCharge, charge, retry_after}
use kyora.Provider.Retry.{RetryPolicy, next_delay, is_429, is_some}
use kyora.Ledger.{Charge, Reservation}
use package.kyora.Runtime.World.{Check, halted, CallError}

-- How the future of a dispatched request ends.
pub data Streamed (V : Type 0) : Type 0 where
  answered : ModelResponse V → List (Text × Text) → Streamed V
  failed : ProviderError → Streamed V
  panicked : Streamed V

-- A request that is not sent because the node was stopped; one whose future ends; and one that is
-- cancelled by a stop, the deadline or its own time limit, with what its future still returns within
-- the grace and what is seen then.
pub data Dispatch (V : Type 0) : Type 0 where
  unsent : Dispatch V
  finished : Streamed V → Dispatch V
  interrupted : Option (Streamed V) → Check → Dispatch V

-- A cancellation that nobody asked for is a request that took too long.
unfoldable pub blame : {V : Type 0} → Check → Streamed V → Streamed V
blame check (Streamed.failed ProviderError.cancelled) =
    if halted check
    then Streamed.failed ProviderError.cancelled
    else Streamed.failed ProviderError.idle_timeout
blame check result = result

unfoldable pub dispatch_result : {V : Type 0} → Dispatch V → Streamed V
unfolding blame
dispatch_result Dispatch.unsent =
    Streamed.failed (ProviderError.not_sent (codes "cancelled before dispatch"))
dispatch_result (Dispatch.finished result) = result
dispatch_result (Dispatch.interrupted (some result) check) = blame check result
dispatch_result (Dispatch.interrupted none check) =
    if halted check
    then Streamed.failed ProviderError.cancelled
    else Streamed.failed ProviderError.idle_timeout

-- The error that a panic is charged as.
abbrev pub panic_error : ProviderError
panic_error = ProviderError.other (codes "provider task panicked")

-- What an attempt is charged.
unfoldable pub charge_result : {V : Type 0} → Streamed V → Charge
unfolding charge
charge_result (Streamed.answered response invalid) = Charge.usage response.usage
charge_result (Streamed.failed error) = Charge.failed (charge error)
charge_result Streamed.panicked = Charge.failed (charge panic_error)

-- What a reservation is charged that is dropped unsettled.
unfoldable pub drop_charge : Bool → Charge
drop_charge dispatched =
    Charge.failed (if dispatched then AttemptCharge.reserved else AttemptCharge.zero)

-- How `attempts` ends; a `panic` is resumed, and a dropped future is not resumed at all.
pub data Ended (V : Type 0) : Type 0 where
  answered : ModelResponse V → List (Text × Text) → Ended V
  failed : CallError → Ended V
  panicked dropped : Ended V

-- Between attempts, with the failures so far and the output cap; during one; or at the end.
pub data Phase (V : Type 0) : Type 0 where
  waiting : ℕ → ℕ → ℕ → Phase V
  holding : ℕ → ℕ → Reservation → Phase V
  ended : Ended V → Phase V

-- What follows an attempt: whether its end and the reset of its partial output are written, whether
-- there was partial output, and the checks after it and during the delay.
pub record Aftermath : Type 0 where
  pub end_written : Bool
  pub after : Check
  pub partial : Bool
  pub reset_written : Bool
  pub delay : Check

unfoldable pub is_unhinted_429 : ProviderError → Bool
unfolding retry_after
is_unhinted_429 error = is_429 error && not (is_some (retry_after error))

abbrev pub untraced : {V : Type 0} → Phase V
untraced = Phase.ended (Ended.failed (CallError.internal (codes "trace write failed")))

abbrev pub stopped : {V : Type 0} → Phase V
stopped = Phase.ended (Ended.failed (CallError.provider ProviderError.cancelled))

module _ {V : Type 0} (policy : RetryPolicy) (jitter : ℕ → ℕ) where
  -- After a failed attempt: another one after a delay, or the end.
  unfoldable pub retry : Aftermath → ProviderError → ℕ → ℕ → ℕ → Phase V
  unfolding next_delay add32
  retry a error failures unhinted max_tokens =
      let failures' = add32 failures 1 in
      let unhinted' = if is_unhinted_429 error then add32 unhinted 1 else unhinted in
      elim (next_delay policy jitter error failures' unhinted') [
        | none ↦ Phase.ended (Ended.failed (CallError.provider error))
        | some delay ↦
            if a.partial && not a.reset_written
            then untraced
            else if halted a.delay
            then stopped
            else Phase.waiting failures' unhinted' max_tokens
      ]

  -- What follows a settled attempt.
  unfoldable pub after_attempt : Aftermath → Streamed V → ℕ → ℕ → ℕ → Phase V
  unfolding retry
  after_attempt a (Streamed.answered response invalid) failures unhinted max_tokens =
      if a.end_written then Phase.ended (Ended.answered response invalid) else untraced
  after_attempt a Streamed.panicked failures unhinted max_tokens =
      if a.end_written then Phase.ended Ended.panicked else untraced
  after_attempt a (Streamed.failed error) failures unhinted max_tokens =
      if not a.end_written
      then untraced
      else if halted a.after
      then stopped
      else retry a error failures unhinted max_tokens
