-- ===== src/Runtime/Finishing.antt =====
-- crates/core/src/runtime.rs, `attempts`: a request can always be carried to its end.
use kyora.Base.{
  ℕ, zero, suc, ◌+◌, ◌<◌, ◌≡◌, refl, ap, ◌⊎◌, inl, inr, none, ◌∷◌, ok, err, panic, arith, length,
  Outcome, String,
}
use kyora.Base.Words.{u64_mod, u32_mod, add64_exact}
use kyora.Provider.Retry.{RetryPolicy}
use kyora.Ledger.{State, Reservation, Settlement, reserve, settle}
use kyora.Ledger.Defaults.{Limits}
use kyora.Ledger.Invariant.{InRange, Inv}
use kyora.Ledger.Reserving.{reserve-Reserved}
use kyora.Ledger.Settling.{settle_total, settle-Settled}
use kyora.Ledger.Budget.{reserve_total}
use package.kyora.Runtime.World.{CallError}
use package.kyora.Runtime.Attempts.{
  Dispatch, dispatch_result, charge_result, Ended, Phase, Aftermath, after_attempt,
}
use package.kyora.Runtime.Attempting.{Progress, held, Step, Reach, next}
use package.kyora.Runtime.Accounts.{AllSpent, Allowed, Accounted}
use package.kyora.Runtime.Accounting.{
  Reach-Accounted, Allowed-at, Closed-at, after_attempt-released,
}

-- What a reservation returns, when it does not panic.
not_panic :
    {A : Type 0} (m : Outcome String A)
    → (m ≡ panic → ⊥)
    → ((a : A) × (m ≡ ok a)) ⊎ ((e : String) × (m ≡ err e))
not_panic (ok a) h = inl (a, refl)
not_panic (err e) h = inr (e, refl)
not_panic panic h = absurd (h refl)

module _ {V : Type 0} (l : Limits) (policy : RetryPolicy) (jitter : ℕ → ℕ) (node prompt : ℕ)
    (words : InRange l) (word : policy.max_retries + 1 < u32_mod) (begin : State) (cap : ℕ)
    (sound : Inv l begin) where
  abbrev Reached : Progress V → Type 0
  Reached p = Reach l policy jitter node prompt begin cap p

  -- What follows the attempt that is held, when it ends in a way.
  abbrev pub after : Dispatch V × Aftermath → ℕ → ℕ → Reservation → Phase V
  after world failures unhinted r =
      after_attempt policy jitter (world.1) (dispatch_result (world.0)) failures unhinted
        r.max_tokens

  -- A request that goes on by itself: it reserves, its attempts end one after the other in the given
  -- ways and are settled, and it is neither cancelled nor dropped.
  pub data Carried : (ℕ → Dispatch V × Aftermath) → Progress V → Progress V → Type 0 where
    arrived : {worlds : ℕ → Dispatch V × Aftermath} {p : Progress V} → Carried worlds p p
    refuses :
        {worlds : ℕ → Dispatch V × Aftermath} {p : Progress V} (f u m : ℕ) (e : String)
        → p.phase ≡ Phase.waiting f u m
        → reserve p.ledger node prompt m ≡ err e
        → Carried worlds p (record p { phase = Phase.ended (Ended.failed CallError.budget) })
    reserves :
        {worlds : ℕ → Dispatch V × Aftermath} {p q : Progress V} (f u m : ℕ) (r : Reservation)
        (s : State)
        → p.phase ≡ Phase.waiting f u m
        → reserve p.ledger node prompt m ≡ ok (r, s)
        → Carried worlds
            (record p { ledger = s; phase = Phase.holding f u r; made = r.id ∷ p.made })
            q
        → Carried worlds p q
    settles :
        {worlds : ℕ → Dispatch V × Aftermath} {p q : Progress V} (f u : ℕ) (r : Reservation)
        (x : Settlement) (s : State)
        → p.phase ≡ Phase.holding f u r
        → settle p.ledger r (charge_result (dispatch_result ((worlds 0).0))) ≡ ok (x, s)
        → Carried (λ n. worlds (suc n)) (record p { ledger = s; phase = after (worlds 0) f u r }) q
        → Carried worlds p q

  -- A request that is carried to its end, with all of its attempts settled.
  pub record Finished (worlds : ℕ → Dispatch V × Aftermath) (p q : Progress V) : Type 0 where
    pub run : Carried worlds p q
    pub outcome : Ended V
    pub at_end : q.phase ≡ Phase.ended outcome
    pub settled_all : AllSpent q.ledger q.made

  accounted : (p : Progress V) → Reached p → Accounted l policy node p
  accounted p h = Reach-Accounted l policy jitter node prompt words word begin cap sound h

  finished :
      (worlds : ℕ → Dispatch V × Aftermath) (p q : Progress V) (e : Ended V)
      → Carried worlds p q
      → Reached q
      → q.phase ≡ Phase.ended e
      → Finished worlds p q
  finished worlds p q e c h at = record {
    run = c;
    outcome = e;
    at_end = at;
    settled_all =
        Closed-at l policy jitter node prompt words word q (Phase.ended e) at (accounted q h);
  }

  -- The attempt that is held is settled, whatever becomes of it.
  settle_held :
      (world : Dispatch V × Aftermath) (p : Progress V) (f u : ℕ) (r : Reservation)
      → Reached p
      → p.phase ≡ Phase.holding f u r
      → (x : Settlement) × (s : State) × (s.next_attempt ≡ p.ledger.next_attempt)
        × (settle p.ledger r (charge_result (dispatch_result (world.0))) ≡ ok (x, s))
        × Reached (record p { ledger = s; phase = after world f u r })
  settle_held world p f u r h at =
      let k = accounted p h in
      let charged = charge_result (dispatch_result (world.0)) in
      let (x, s, g) =
        settle_total l p.ledger r charged node r.tokens k.sound.accounts
          (k.open_attempt r (ap held at)) in
      let state = settle-Settled p.ledger r charged x s g in
      (x, s, ground (arith, state), g, next h (Step.settled (world.0) (world.1) f u r x s at g))

  -- The rounds that are left suffice.
  abbrev Enough : Phase V → ℕ → Type 0
  Enough (Phase.waiting failures _ _) rounds = policy.max_retries < failures + rounds
  Enough _ rounds = Unit {0}

  left-Enough :
      (phase : Phase V) (n rounds : ℕ)
      → Allowed policy phase n
      → policy.max_retries < n + rounds
      → Enough phase rounds
  left-Enough (Phase.waiting f u m) n rounds a h = omega (arith, a.0)
  left-Enough (Phase.holding f u r) n rounds a h = tt
  left-Enough (Phase.ended e) n rounds a h = tt

  after_settled :
      (p : Progress V) (phase : Phase V) (n rounds : ℕ)
      → Reached p
      → p.phase ≡ phase
      → length p.made ≡ n
      → policy.max_retries < n + rounds
      → Enough phase rounds
  after_settled p phase n rounds h at e few =
      left-Enough phase (length p.made) rounds
        (Allowed-at l policy jitter node prompt words word p phase at (accounted p h))
        (omega (arith, e, few))

  resume :
      (rounds : ℕ) (worlds : ℕ → Dispatch V × Aftermath) (p : Progress V) (phase : Phase V)
      → Reached p
      → p.phase ≡ phase
      → held phase ≡ none
      → Enough phase rounds
      → p.ledger.next_attempt + rounds < u64_mod
      → (q : Progress V) × Finished worlds p q
  resume rounds worlds p (Phase.ended e) h at free few room =
      (p, finished worlds p p e Carried.arrived h at)
  resume rounds worlds p (Phase.holding f u r) h at free few room = cc
  resume zero worlds p (Phase.waiting f u m) h at free few room =
      let a =
        Allowed-at l policy jitter node prompt words word p (Phase.waiting f u m) at
          (accounted p h) in
      absurd (omega (arith, few, a.1))
  resume (suc rounds) worlds p (Phase.waiting f u m) h at free few room =
      let k = accounted p h in
      let a = Allowed-at l policy jitter node prompt words word p (Phase.waiting f u m) at k in
      elim (not_panic (reserve p.ledger node prompt m)
        (reserve_total l p.ledger node prompt m k.sound)) [
          | inr (e, g) ↦
              let q = record p { phase = Phase.ended (Ended.failed CallError.budget) } in
              (
                q,
                finished worlds p q (Ended.failed CallError.budget) (Carried.refuses f u m e at g)
                    (next h (Step.refused f u m e at g)) refl,
              )
          | inl ((r, s), g) ↦
              let d = reserve-Reserved p.ledger node prompt m r s g in
              let mid : Progress V = record p {
                ledger = s;
                phase = Phase.holding f u r;
                made = r.id ∷ p.made;
              } in
              let got = next h (Step.reserved f u m r s at (omega arith) g) in
              let (x, s', number, paid, run) = settle_held (worlds 0) mid f u r got refl in
              let phase = after (worlds 0) f u r in
              let q : Progress V = record mid { ledger = s'; phase = phase } in
              let (z, end) =
                resume rounds (λ n. worlds (suc n)) q phase run refl
                  (after_attempt-released V policy jitter ((worlds 0).1)
                    (dispatch_result ((worlds 0).0)) f u r.max_tokens)
                  (after_settled q phase (suc f) rounds run refl (omega (arith, a.0))
                    (omega (arith, few)))
                  (ground (arith, d, number, add64_exact r.id 1, room)) in
              (
                z,
                record {
                  run =
                      Carried.reserves f u m r s at g
                        (Carried.settles f u r x s' refl paid end.run);
                  outcome = end.outcome;
                  at_end = end.at_end;
                  settled_all = end.settled_all;
                },
              )
        ]

  -- From every moment of a request among the other callers of the ledger, which do not settle the
  -- attempt that it holds, from a ledger with the invariant and limits and retries that are words,
  -- while so many attempts can still be numbered: in whatever ways its attempts end from then on, the
  -- request goes on by itself, reserving and settling, without a panic of the ledger, to an end in
  -- which all of its attempts are settled.
  pub Reach-ends :
      (worlds : ℕ → Dispatch V × Aftermath) (p : Progress V)
      → Reached p
      → p.ledger.next_attempt + suc policy.max_retries < u64_mod
      → (q : Progress V) × Finished worlds p q
  Reach-ends worlds p h room = go p.phase refl
    where
      go : (phase : Phase V) → p.phase ≡ phase → (q : Progress V) × Finished worlds p q
      go (Phase.ended e) at = (p, finished worlds p p e Carried.arrived h at)
      go (Phase.waiting f u m) at =
          resume (suc policy.max_retries) worlds p (Phase.waiting f u m) h at refl (omega arith)
            room
      go (Phase.holding f u r) at =
          let (x, s, number, paid, run) = settle_held (worlds 0) p f u r h at in
          let phase = after (worlds 0) f u r in
          let q : Progress V = record p { ledger = s; phase = phase } in
          let (z, end) =
            resume (suc policy.max_retries) (λ n. worlds (suc n)) q phase run refl
              (after_attempt-released V policy jitter ((worlds 0).1)
                (dispatch_result ((worlds 0).0)) f u r.max_tokens)
              (after_settled q phase (length p.made) (suc policy.max_retries) run refl refl
                (omega arith))
              (omega (arith, number, room)) in
          (
            z,
            record {
              run = Carried.settles f u r x s at paid end.run;
              outcome = end.outcome;
              at_end = end.at_end;
              settled_all = end.settled_all;
            },
          )
