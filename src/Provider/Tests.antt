-- ===== src/Provider/Tests.antt =====
-- The retry policy on a provider's errors.
use kyora.Base.{ℕ, ◌≡◌, refl, arith, ◌≤◌, ◌/◌, ◌+◌, ◌*◌, min, codes}
use kyora.Provider.{ProviderError}
use kyora.Provider.Retry.{default_policy, ceiling, next_delay, next_delay-le-cap, ceiling_doubles}

-- The jitter of a random number of one half.
half : ℕ → ℕ
half n = n / 2

next_delay-le-cap_example : 2_000_000_000 ≤ 60_000_000_000
unfolding next_delay half
next_delay-le-cap_example =
    next_delay-le-cap default_policy half (ProviderError.transport (codes "reset")) 3 0
      2_000_000_000 (λ n. omega arith) refl

ceiling_doubles_example :
    ceiling default_policy (3 + 1) ≡ min (2 * ceiling default_policy 3) 60_000_000_000
ceiling_doubles_example = ceiling_doubles default_policy 3 (omega arith) (omega arith) (omega arith)
