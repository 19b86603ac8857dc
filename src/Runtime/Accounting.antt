-- ===== src/Runtime/Accounting.antt =====
-- crates/core/src/runtime.rs, `attempts`: every attempt of a request is settled, whatever happens.
use kyora.Base.{
  ℕ, suc, ◌+◌, ◌<◌, ◌≤◌, ◌≡◌, refl, ap, sym, ◌∙◌, ◌≢◌, Bool, true, false, not, Option, none, some,
  ok, arith, length, if◌then◌else◌,
}
use mathlib.Core.Path.{subst}
use kyora.Base.Maps.{lookup-Below, lookup-insert}
use kyora.Base.Words.{add32_exact, add64_exact, u32_mod}
use kyora.Provider.{ProviderError}
use kyora.Provider.Retry.{RetryPolicy}
use kyora.Ledger.{State, Reservation, Settlement, Charge, settle}
use kyora.Ledger.Defaults.{Limits}
use kyora.Ledger.Invariant.{InRange, Inv}
use kyora.Ledger.Reach as Calls
use kyora.Ledger.Reserving.{reserve-Reserved}
use kyora.Ledger.Numbering.{
  Step-Spent, Step-lookup, Step-numbers, reserve-Spent, settle-Spent, settled-Spent,
}
use package.kyora.Runtime.World.{halted}
use package.kyora.Runtime.Attempts.{
  Streamed, dispatch_result, Phase, Ended, Aftermath, retry, after_attempt,
}
use package.kyora.Runtime.Accounts.{
  Closed, Allowed, Accounted, all_kept, Closed-kept, Closed-unheld, Falls-mono, settle-AllSpent,
}
use package.kyora.Runtime.Attempting.{
  Progress, held, Step, other, cancelled, refused, reserved, unrecorded, dropped, settled, Reach,
  here, next,
}

if-Allowed :
    {V : Type 0} (policy : RetryPolicy) (b : Bool) (p q : Phase V) (n : ℕ)
    → Allowed policy p n
    → Allowed policy q n
    → Allowed policy (if b then p else q) n
if-Allowed policy true p q n h k = h
if-Allowed policy false p q n h k = k

module _ (V : Type 0) (policy : RetryPolicy) (jitter : ℕ → ℕ) where
  retry-Allowed :
      (a : Aftermath) (error : ProviderError) (failures unhinted max_tokens : ℕ)
      → failures ≤ policy.max_retries
      → policy.max_retries + 1 < u32_mod
      → Allowed {V = V} policy
          (retry policy jitter a error failures unhinted max_tokens)
          (suc failures)
  unfolding retry
  retry-Allowed a error failures unhinted max_tokens h word = ground (arith, add32_exact failures 1)

  after_attempt-Allowed :
      (a : Aftermath) (result : Streamed V) (failures unhinted max_tokens : ℕ)
      → failures ≤ policy.max_retries
      → policy.max_retries + 1 < u32_mod
      → Allowed policy
          (after_attempt policy jitter a result failures unhinted max_tokens)
          (suc failures)
  unfolding after_attempt
  after_attempt-Allowed a (Streamed.answered response invalid) failures unhinted max_tokens h word =
      if-Allowed policy a.end_written _ _ _ (omega arith) (omega arith)
  after_attempt-Allowed a Streamed.panicked failures unhinted max_tokens h word =
      if-Allowed policy a.end_written _ _ _ (omega arith) (omega arith)
  after_attempt-Allowed a (Streamed.failed error) failures unhinted max_tokens h word =
      let again = retry-Allowed a error failures unhinted max_tokens h word in
      if-Allowed policy (not a.end_written) _ _ _ (omega arith)
        (if-Allowed policy (halted a.after) _ _ _ (omega arith) again)

  pub after_attempt-released :
      (a : Aftermath) (result : Streamed V) (failures unhinted max_tokens : ℕ)
      → held (after_attempt policy jitter a result failures unhinted max_tokens) ≡ none
  unfolding after_attempt retry
  after_attempt-released a result failures unhinted max_tokens = ground arith

none≢held : (r : Reservation) → ◌≢◌ {A = Option Reservation} none (some r)
none≢held r e = cc

module _ {V : Type 0} (l : Limits) (policy : RetryPolicy) (jitter : ℕ → ℕ) (node prompt : ℕ)
    (words : InRange l) (word : policy.max_retries + 1 < u32_mod) where
  -- What the phase says of the attempts, once the phase is known.
  pub Allowed-at :
      (p : Progress V) (phase : Phase V)
      → p.phase ≡ phase
      → Accounted l policy node p
      → Allowed policy phase (length p.made)
  Allowed-at p phase e k = subst (λ (q : Phase V). Allowed policy q (length p.made)) e k.allowed

  pub Closed-at :
      (p : Progress V) (phase : Phase V)
      → p.phase ≡ phase
      → Accounted l policy node p
      → Closed p.ledger phase p.made
  Closed-at p phase e k = subst (λ (q : Phase V). Closed p.ledger q p.made) e k.closed

  -- A settlement of the attempt that is held, with any charge.
  settle-Accounted :
      (p : Progress V) (failures unhinted : ℕ) (r : Reservation) (c : Charge) (x : Settlement)
      (s : State) (phase : Phase V)
      → p.phase ≡ Phase.holding failures unhinted r
      → settle p.ledger r c ≡ ok (x, s)
      → held phase ≡ none
      → (failures ≤ policy.max_retries → Allowed policy phase (suc failures))
      → Accounted l policy node p
      → Accounted l policy node (record { ledger = s; phase = phase; made = p.made })
  settle-Accounted p failures unhinted r c x s phase at h released allows k =
      let entry = k.open_attempt r (ap held at) in
      let given =
        lookup-Below r.id p.ledger.next_attempt (node, r.tokens) p.ledger.attempts
          k.sound.accounts.numbered entry in
      let (same, few) = Allowed-at p (Phase.holding failures unhinted r) at k in
      let all =
        settle-AllSpent V p.ledger s failures unhinted r p.made
          (Closed-at p (Phase.holding failures unhinted r) at k)
          (settled-Spent p.ledger r c x s h given) (λ id. settle-Spent p.ledger r c x s id h) in
      let step = Calls.Step.settled r c x h in
      record {
        sound = Calls.Step-Inv l p.ledger s words k.sound step;
        open_attempt = λ q e. absurd (none≢held q (sym released ∙ e));
        closed = Closed-unheld s phase p.made released all;
        distinct =
            Falls-mono p.ledger.next_attempt s.next_attempt p.made (Step-numbers l p.ledger s step)
              k.distinct;
        allowed = rw same (allows few);
      }

  -- The end of a request that holds no attempt.
  end-Accounted :
      (p : Progress V) (failures unhinted max_tokens : ℕ) (e : Ended V)
      → p.phase ≡ Phase.waiting failures unhinted max_tokens
      → Accounted l policy node p
      → Accounted l policy node (record p { phase = Phase.ended e })
  end-Accounted p failures unhinted max_tokens e at k =
      let a = Allowed-at p (Phase.waiting failures unhinted max_tokens) at k in
      record {
        sound = k.sound;
        open_attempt = λ r h. cc;
        closed = Closed-at p (Phase.waiting failures unhinted max_tokens) at k;
        distinct = k.distinct;
        allowed = omega (arith, a);
      }

  Step-Accounted :
      (p q : Progress V)
      → Step l policy jitter node prompt p q
      → Accounted l policy node p
      → Accounted l policy node q
  Step-Accounted p q (other s e spared) k = record {
    sound = Calls.Step-Inv l p.ledger s words k.sound e;
    open_attempt = λ r h.
        let entry = k.open_attempt r h in
        let given =
          lookup-Below r.id p.ledger.next_attempt (node, r.tokens) p.ledger.attempts
            k.sound.accounts.numbered entry in
        Step-lookup l p.ledger s r.id e given (spared r h) ∙ entry;
    closed = Closed-kept p.ledger s p.phase p.made (λ id. Step-Spent l p.ledger s id e) k.closed;
    distinct =
        Falls-mono p.ledger.next_attempt s.next_attempt p.made (Step-numbers l p.ledger s e)
          k.distinct;
    allowed = k.allowed;
  }
  Step-Accounted p q (cancelled failures unhinted max_tokens at) k =
      end-Accounted p failures unhinted max_tokens _ at k
  Step-Accounted p q (refused failures unhinted max_tokens e at h) k =
      end-Accounted p failures unhinted max_tokens _ at k
  Step-Accounted p q (reserved failures unhinted max_tokens r s at small h) k =
      let d = reserve-Reserved p.ledger node prompt max_tokens r s h in
      let (same, few) = Allowed-at p (Phase.waiting failures unhinted max_tokens) at k in
      let number : r.id ≡ p.ledger.next_attempt = d.id in
      record {
        sound =
            Calls.Step-Inv l p.ledger s words k.sound
              (Calls.Step.reserved node prompt max_tokens r small h);
        open_attempt =
            λ v e. ground (arith, d, lookup-insert r.id r.id (node, r.tokens) p.ledger.attempts);
        closed = (
          refl,
          all_kept p.ledger s p.made
              (λ id. reserve-Spent p.ledger node prompt max_tokens r s id small h)
              (Closed-at p (Phase.waiting failures unhinted max_tokens) at k),
        );
        distinct = (ground (arith, d, add64_exact r.id 1), rw number (k.distinct));
        allowed = (omega (arith, same), few);
      }
  Step-Accounted p q (unrecorded failures unhinted r x s at h) k =
      settle-Accounted p failures unhinted r _ x s _ at h refl (λ few. omega arith) k
  Step-Accounted p q (dropped dispatched failures unhinted r x s at h) k =
      settle-Accounted p failures unhinted r _ x s _ at h refl (λ few. omega arith) k
  Step-Accounted p q (settled d a failures unhinted r x s at h) k =
      settle-Accounted p failures unhinted r _ x s _ at h
        (after_attempt-released V policy jitter a (dispatch_result d) failures unhinted
          r.max_tokens)
        (λ few.
          after_attempt-Allowed V policy jitter a (dispatch_result d) failures unhinted r.max_tokens
            few word)
        k

  -- However a request and the other callers of the ledger interleave, from a ledger with the
  -- invariant and limits and retries that are words: the invariant holds; of the attempts that the
  -- ledger gave to the request, all different, none is in the table but the one that the request
  -- holds, which is there with its node and tokens; so when the request has ended, in whatever way,
  -- all are settled; and they are at most one more than the maximum of retries. Others do not settle
  -- the attempt that is held.
  pub Reach-Accounted :
      (start : State) (max_tokens : ℕ) {p : Progress V}
      → Inv l start
      → Reach l policy jitter node prompt start max_tokens p
      → Accounted l policy node p
  Reach-Accounted start max_tokens i here = record {
    sound = i;
    open_attempt = λ r h. cc;
    closed = tt;
    distinct = tt;
    allowed = omega arith;
  }
  Reach-Accounted start max_tokens i (next {p = p} {q = q} h step) =
      Step-Accounted p q step (Reach-Accounted start max_tokens i h)
