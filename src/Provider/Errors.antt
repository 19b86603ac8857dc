-- ===== src/Provider/Errors.antt =====
-- crates/providers/src/lib.rs, `ProviderError` and `AttemptCharge`: which errors are retried, and
-- what a failed attempt is charged. Durations are in nanoseconds.
use kyora.Base.{
  ℕ, Bool, true, false, ◌&&◌, ◌||◌, Option, none, leb, ltb, ◌==◌, if◌then◌else◌, Text, codes,
  text_eq, List, [], ◌∷◌, contains,
}

pub data ProviderError : Type 0 where
  http : ℕ → Text → Option ℕ → ProviderError
  not_sent transport : Text → ProviderError
  stream : Text → Text → ProviderError
  idle_timeout : ProviderError
  protocol : Text → ProviderError
  cancelled : ProviderError
  context_too_large other : Text → ProviderError

pub data AttemptCharge : Type 0 where
  zero reserved : AttemptCharge

-- `ProviderError::cancelled`
unfoldable pub cancelled_error : Bool → ProviderError
cancelled_error true = ProviderError.cancelled
cancelled_error false = ProviderError.not_sent (codes "cancelled before sending")

abbrev retryable_statuses : List ℕ
retryable_statuses = 408 ∷ 409 ∷ 429 ∷ 500 ∷ 502 ∷ 503 ∷ 504 ∷ 529 ∷ []

-- `ProviderError::is_retryable`
unfoldable pub is_retryable : ProviderError → Bool
is_retryable (ProviderError.not_sent _) = true
is_retryable (ProviderError.transport _) = true
is_retryable ProviderError.idle_timeout = true
is_retryable (ProviderError.http status _ _) = contains status retryable_statuses
is_retryable (ProviderError.stream kind _) =
    text_eq kind (codes "overloaded_error") || text_eq kind (codes "api_error")
is_retryable (ProviderError.protocol _) = false
is_retryable ProviderError.cancelled = false
is_retryable (ProviderError.context_too_large _) = false
is_retryable (ProviderError.other _) = false

-- `ProviderError::charge`
unfoldable pub charge : ProviderError → AttemptCharge
charge (ProviderError.not_sent _) = AttemptCharge.zero
charge (ProviderError.context_too_large _) = AttemptCharge.zero
charge (ProviderError.http status _ _) =
    if (leb 400 status && ltb status 500) || status == 529
    then AttemptCharge.zero
    else AttemptCharge.reserved
charge (ProviderError.transport _) = AttemptCharge.reserved
charge (ProviderError.stream _ _) = AttemptCharge.reserved
charge ProviderError.idle_timeout = AttemptCharge.reserved
charge (ProviderError.protocol _) = AttemptCharge.reserved
charge ProviderError.cancelled = AttemptCharge.reserved
charge (ProviderError.other _) = AttemptCharge.reserved

-- `ProviderError::retry_after`
unfoldable pub retry_after : ProviderError → Option ℕ
retry_after (ProviderError.http _ _ after) = after
retry_after _ = none
