-- ===== src/Ledger/Reach.antt =====
-- crates/core/src/ledger.rs over its lifetime: any interleaving of calls, each under the mutex, is
-- a sequence of steps. A call that fails leaves the state as it was and is no step.
use kyora.Base.{
  ℕ, zero, suc, ◌+◌, ◌<◌, ◌≡◌, refl, Option, none, some, inr, [], Bool, true, arith, get_elem?, ok,
}
use kyora.Base.Words.{u64_mod, saturating_add64}
use kyora.Ledger.{
  Scope, State, Reservation, Settlement, Charge, initial, admit, reserve, settle, close_admission,
  shutdown, new_scope,
}
use kyora.Ledger.Defaults.{Limits, validate}
use kyora.Ledger.Invariant.{InRange, Inv, ScopeInv}
use kyora.Ledger.Updates.{outstanding}
use kyora.Ledger.Admission.{admit-Inv}
use kyora.Ledger.Reserving.{reserve-Inv}
use kyora.Ledger.Settling.{settle-Inv}
use kyora.Ledger.Ending.{close_admission-Inv, shutdown-Inv}

-- One successful call. Fewer than 2^64 attempts are ever numbered.
pub data Step (l : Limits) (s s' : State) : Type 0 where
  admitted :
      (parent : ℕ) (agent : Bool) (limit : Option ℕ) (id : ℕ)
      → admit l s parent agent limit ≡ ok (id, s')
      → Step l s s'
  reserved :
      (node prompt_estimate requested : ℕ) (r : Reservation)
      → s.next_attempt + 1 < u64_mod
      → reserve s node prompt_estimate requested ≡ ok (r, s')
      → Step l s s'
  settled :
      (r : Reservation) (c : Charge) (x : Settlement) → settle s r c ≡ ok (x, s') → Step l s s'
  closed : (node : ℕ) → close_admission s node ≡ ok s' → Step l s s'
  ended : (node : ℕ) → shutdown s node ≡ ok s' → Step l s s'

pub data Reach (l : Limits) : State → Type 0 where
  start : Reach l (initial l)
  next : {s s' : State} → Reach l s → Step l s s' → Reach l s'

-- Limits that were validated have a place for the root.
validate-root :
    (fits : ℕ → Bool) (l : Limits)
    → validate fits l ≡ ok tt
    → (0 < l.max_agents_live) × (0 < l.max_agents_total)
unfolding validate
validate-root fits l e = ground arith

initial-Inv :
    (l : Limits) → InRange l → 0 < l.max_agents_live → 0 < l.max_agents_total → Inv l (initial l)
unfolding initial new_scope outstanding saturating_add64
initial-Inv l r live total = record {
  counts = omega arith;
  accounts = record {
    tree = λ i n p e f. absurd (orphan i n p e f);
    each = λ i n e. only i n e;
    numbered = tt;
    ordered = tt;
    homed = tt;
  };
}
  where
    orphan :
        (i : ℕ) (n : Scope) (p : ℕ)
        → get_elem? (initial l).scopes i ≡ some n
        → n.parent ≡ some p
        → ⊥
    orphan zero n p e f = ground arith
    orphan (suc i) n p e f = cc

    only :
        (i : ℕ) (n : Scope)
        → get_elem? (initial l).scopes i ≡ some n
        → ScopeInv l (initial l).scopes [] i n
    only zero n e =
        let same : n ≡ new_scope none 0 true l.budget_tokens = ground arith in
        rw same (record {
          books = refl;
          sound = record {
            used_word = omega arith;
            reserved_word = omega arith;
            within = inr (omega arith);
          };
          limited = omega arith;
          depth_limit = omega arith;
        })
    only (suc i) n e = cc

pub Step-Inv : (l : Limits) (s s' : State) → InRange l → Inv l s → Step l s s' → Inv l s'
Step-Inv l s s' r i (admitted parent agent limit id e) =
    admit-Inv l s parent agent limit id s' r i e
Step-Inv l s s' r i (reserved node prompt_estimate requested v wrap e) =
    reserve-Inv l s node prompt_estimate requested v s' r wrap i e
Step-Inv l s s' r i (settled v c x e) = settle-Inv l s v c x s' i e
Step-Inv l s s' r i (closed node e) = close_admission-Inv l s node s' i e
Step-Inv l s s' r i (ended node e) = shutdown-Inv l s node s' r i e

-- From validated limits that are words, every state that any sequence of calls reaches satisfies
-- the invariant: the live, total and leaf counters are the numbers of such scopes and within their
-- limits, depths are within theirs, every scope is closed or within its budget, and its reserved
-- tokens are the sum over the outstanding attempts on it and below it.
pub Reach-Inv :
    (l : Limits) (fits : ℕ → Bool) {s : State}
    → InRange l
    → validate fits l ≡ ok tt
    → Reach l s
    → Inv l s
Reach-Inv l fits r v start =
    let (live, total) = validate-root fits l v in initial-Inv l r live total
Reach-Inv l fits r v (next {s = s} {s' = s'} h st) = Step-Inv l s s' r (Reach-Inv l fits r v h) st
