-- ===== src/Runtime/Retrying.antt =====
-- crates/core/src/runtime.rs, `attempts`: how many failures in a row a request survives.
use kyora.Base.{
  ℕ, ◌+◌, ◌<◌, ◌≤◌, ◌≡◌, refl, ◌∙◌, Bool, true, false, not, ◌&&◌, List, [], ◌∷◌, arith, leb, ◌==◌,
  length, count, Bool-cases, Option-cases, inl, inr, if◌then◌else◌,
}
use kyora.Base.Words.{u32_mod, add32_exact}
use kyora.Provider.{ProviderError, is_retryable, retry_after}
use kyora.Provider.Retry.{RetryPolicy, next_delay}
use package.kyora.Runtime.World.{Check, CallError}
use package.kyora.Runtime.Attempts.{
  Phase, Ended, Streamed, Aftermath, after_attempt, retry, is_unhinted_429,
}

-- Everything is written, and nobody stops the request.
abbrev pub calm : Aftermath
calm = record {
  end_written = true;
  after = Check.running;
  partial = true;
  reset_written = true;
  delay = Check.running;
}

abbrev pub is_waiting : {V : Type 0} → Phase V → Bool
is_waiting (Phase.waiting _ _ _) = true
is_waiting _ = false

-- What a list of errors must be for another attempt to follow it.
abbrev survives : RetryPolicy → List ProviderError → ℕ → ℕ → Bool
survives policy errors failures unhinted =
    count (λ e. not (is_retryable e)) errors == 0
    && (leb (failures + length errors) policy.max_retries
        && leb (unhinted + count is_unhinted_429 errors) policy.max_unhinted_429_retries)

module _ (V : Type 0) (policy : RetryPolicy) (jitter : ℕ → ℕ) where
  -- Attempts that fail one after the other.
  unfoldable pub fail_all : List ProviderError → Phase V → Phase V
  unfolding after_attempt
  fail_all [] phase = phase
  fail_all (error ∷ errors) (Phase.waiting failures unhinted cap) =
      fail_all errors
        (after_attempt policy jitter calm (Streamed.failed error) failures unhinted cap)
  fail_all (error ∷ errors) phase = phase

  fail_all-ended :
      (errors : List ProviderError) (end : Ended V)
      → fail_all errors (Phase.ended end) ≡ Phase.ended end
  unfolding fail_all
  fail_all-ended [] end = refl
  fail_all-ended (e ∷ errors) end = refl

  -- One failure.
  after_failure :
      (e : ProviderError) (failures unhinted limit : ℕ)
      → policy.max_retries + 1 < u32_mod
      → policy.max_unhinted_429_retries + 1 < u32_mod
      → failures ≤ policy.max_retries
      → unhinted ≤ policy.max_unhinted_429_retries
      → after_attempt {V = V} policy jitter calm (Streamed.failed e) failures unhinted limit ≡ (
          let unhinted' = (if is_unhinted_429 e then 1 else 0) + unhinted in
          if is_retryable e
            && (leb (failures + 1) policy.max_retries
                && leb unhinted' policy.max_unhinted_429_retries)
          then Phase.waiting (failures + 1) unhinted' limit
          else Phase.ended (Ended.failed (CallError.provider e)))
  unfolding after_attempt retry next_delay is_unhinted_429
  after_failure e f u limit word word' few few' =
      let more = add32_exact f 1 (omega arith) in
      let more' = add32_exact u 1 (omega arith) in
      elim (Option-cases (retry_after e)) [
        | inl unhinted ↦ ground (arith, more, more')
        | inr (hint, hinted) ↦ ground (arith, more, more')
      ]

  fail_all-survives :
      (errors : List ProviderError) (failures unhinted limit : ℕ)
      → policy.max_retries + 1 < u32_mod
      → policy.max_unhinted_429_retries + 1 < u32_mod
      → failures ≤ policy.max_retries
      → unhinted ≤ policy.max_unhinted_429_retries
      → is_waiting (fail_all errors (Phase.waiting failures unhinted limit))
        ≡ survives policy errors failures unhinted
  unfolding fail_all
  fail_all-survives [] f u limit word word' few few' = ground arith
  fail_all-survives (e ∷ errors) f u limit word word' few few' =
      let first = after_failure e f u limit word word' few few' in
      let unhinted' = (if is_unhinted_429 e then 1 else 0) + u in
      let kept =
        is_retryable e
        && (leb (f + 1) policy.max_retries && leb unhinted' policy.max_unhinted_429_retries) in
      elim (Bool-cases kept) [
        | inl on ↦
            let ih =
              fail_all-survives errors (f + 1) unhinted' limit word word' (ground arith)
                (ground arith) in
            rw (first, on) (ih ∙ ground arith)
        | inr over ↦
            rw (first, over, fail_all-ended errors (Ended.failed (CallError.provider e)))
              (ground arith)
      ]

  -- For limits of retries that are words below the last: when the attempts of a request fail with
  -- some errors in a row, and everything is written and nobody stops it, another attempt follows
  -- exactly when all of the errors are retryable, they are at most the maximum of retries, and the
  -- 429s among them without a hint are at most their own maximum.
  pub fail_all_lem :
      (errors : List ProviderError) (limit : ℕ)
      → policy.max_retries + 1 < u32_mod
      → policy.max_unhinted_429_retries + 1 < u32_mod
      → is_waiting (fail_all errors (Phase.waiting 0 0 limit)) ≡ (
          count (λ e. not (is_retryable e)) errors == 0
          && (leb (length errors) policy.max_retries
              && leb (count is_unhinted_429 errors) policy.max_unhinted_429_retries))
  fail_all_lem errors limit word word' =
      fail_all-survives errors 0 0 limit word word' (omega arith) (omega arith) ∙ ground arith
