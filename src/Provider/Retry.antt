-- ===== src/Provider/Retry.antt =====
-- crates/providers/src/retry.rs: whether and when a failed attempt is retried. `jitter` is
-- `mul_f64(random.clamp(0.0, 1.0))`, a float operation: what is assumed of it is that it never
-- lengthens a delay.
use kyora.Base.{
  ℕ, zero, suc, ap, ◌∙◌, ◌+◌, ◌-◌, ◌*◌, ◌^◌, ◌≤◌, ◌<◌, ◌≡◌, inl, inr, min, Bool, true, false, not,
  ◌&&◌, ◌||◌, Option, none, some, arith, ltb, ◌==◌, if◌then◌else◌, Option-cases,
}
use native.Mathlib.Nat.{pow-suc}
use package.kyora.Provider.Errors.{ProviderError, is_retryable, retry_after}

pub record RetryPolicy : Type 0 where
  pub max_retries : ℕ
  pub base : ℕ
  pub cap : ℕ
  pub max_unhinted_429_retries : ℕ

-- `RetryPolicy::default`
abbrev pub default_policy : RetryPolicy
default_policy = record {
  max_retries = 4;
  base = 1_000_000_000;
  cap = 60_000_000_000;
  max_unhinted_429_retries = 1;
}

-- `Duration::MAX`
abbrev max_duration : ℕ
max_duration = 18_446_744_073_709_551_615_999_999_999

unfoldable saturating_mul : ℕ → ℕ → ℕ
saturating_mul d n = min (d * n) max_duration

abbrev pub is_429 : ProviderError → Bool
is_429 (ProviderError.http status _ _) = status == 429
is_429 _ = false

-- The backoff before jitter.
unfoldable pub ceiling : RetryPolicy → ℕ → ℕ
unfolding saturating_mul
ceiling p failures = min (saturating_mul p.base (2 ^ min (failures - 1) 30)) p.cap

-- `RetryPolicy::next_delay`
unfoldable pub next_delay : RetryPolicy → (jitter : ℕ → ℕ) → ProviderError → ℕ → ℕ → Option ℕ
unfolding is_retryable retry_after ceiling
next_delay p jitter error failures unhinted_429s =
    if not (is_retryable error) || ltb p.max_retries failures
    then none
    else (elim (retry_after error) [
      | some delay ↦ some (min delay p.cap)
      | none ↦
          if is_429 error && ltb p.max_unhinted_429_retries unhinted_429s
          then none
          else some (jitter (ceiling p failures))
    ])

abbrev pub is_some : {A : Type 0} → Option A → Bool
is_some none = false
is_some (some _) = true

-- A delay is at most the cap, when the jitter lengthens no delay.
pub next_delay-le-cap :
    (p : RetryPolicy) (jitter : ℕ → ℕ) (error : ProviderError) (failures unhinted_429s d : ℕ)
    → ((n : ℕ) → jitter n ≤ n)
    → next_delay p jitter error failures unhinted_429s ≡ some d
    → d ≤ p.cap
unfolding next_delay
next_delay-le-cap p jitter error failures unhinted_429s d shorter e =
    elim (Option-cases (retry_after error)) [
      | inl unhinted ↦ ground (arith, shorter (ceiling p failures))
      | inr (hint, e') ↦ ground arith
    ]

-- For failures from 1 to 30 and a cap that a `Duration` can hold, the ceiling of the backoff
-- after one more failure is twice the ceiling, or the cap if that is less.
pub ceiling_doubles :
    (p : RetryPolicy) (failures : ℕ)
    → 0 < failures
    → failures ≤ 30
    → p.cap ≤ max_duration
    → ceiling p (failures + 1) ≡ min (2 * ceiling p failures) p.cap
unfolding ceiling
ceiling_doubles p zero pos small cap = absurd (omega arith)
ceiling_doubles p (suc k) pos small cap =
    let here : min (suc k - 1) 30 ≡ k = omega arith in
    let there : min (suc k + 1 - 1) 30 ≡ suc k = omega arith in
    let double : p.base * 2 ^ suc k ≡ 2 * (p.base * 2 ^ k) =
      ap (λ n. p.base * n) (pow-suc 2 k) ∙ omega arith in
    rw (here, there, double) (omega arith)
