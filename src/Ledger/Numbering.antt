-- ===== src/Ledger/Numbering.antt =====
-- crates/core/src/ledger.rs: attempt identifiers are given once, so a settled attempt stays gone.
use kyora.Base.{
  ℕ, ◌+◌, ◌<◌, ◌≤◌, ◌≡◌, ◌≢◌, Bool, Option, none, ok, arith, ◌==◌, Bool-cases, inl, inr,
}
use kyora.Base.Words.{u64_mod, add64_exact}
use kyora.Base.Maps.{lookup, lookup-insert, lookup-erase}
use kyora.Ledger.{
  State, Reservation, Settlement, Charge, reserve, settle, admit, close_admission, shutdown,
  count_node,
}
use kyora.Ledger.Defaults.{Limits}
use kyora.Ledger.Reserving.{reserve-Reserved}
use kyora.Ledger.Settling.{settle-Settled}
use kyora.Ledger.Reach.{Step, admitted, reserved, settled, closed, ended}

-- An identifier that was given, and whose attempt is not outstanding.
pub record Spent (s : State) (id : ℕ) : Type 0 where
  pub given : id < s.next_attempt
  pub absent : lookup id s.attempts ≡ none

pub settle-Spent :
    (s : State) (r : Reservation) (c : Charge) (x : Settlement) (s' : State) (id : ℕ)
    → settle s r c ≡ ok (x, s')
    → Spent s id
    → Spent s' id
settle-Spent s r c x s' id h p =
    let k = settle-Settled s r c x s' h in ground (arith, k, p, lookup-erase r.id id s.attempts)

-- A settled attempt is spent.
pub settled-Spent :
    (s : State) (r : Reservation) (c : Charge) (x : Settlement) (s' : State)
    → settle s r c ≡ ok (x, s')
    → r.id < s.next_attempt
    → Spent s' r.id
settled-Spent s r c x s' h p =
    let k = settle-Settled s r c x s' h in ground (arith, k, lookup-erase r.id r.id s.attempts)

pub reserve-Spent :
    (s : State) (node prompt_estimate requested : ℕ) (r : Reservation) (s' : State) (id : ℕ)
    → s.next_attempt + 1 < u64_mod
    → reserve s node prompt_estimate requested ≡ ok (r, s')
    → Spent s id
    → Spent s' id
reserve-Spent s node prompt_estimate requested r s' id word h p =
    let k = reserve-Reserved s node prompt_estimate requested r s' h in
    ground (arith, k, p, add64_exact r.id 1, lookup-insert r.id id (node, r.tokens) s.attempts)

admit_attempts :
    (l : Limits) (s : State) (parent : ℕ) (agent : Bool) (limit : Option ℕ) (id : ℕ) (s' : State)
    → admit l s parent agent limit ≡ ok (id, s')
    → (s'.attempts ≡ s.attempts) × (s'.next_attempt ≡ s.next_attempt)
unfolding admit count_node
admit_attempts l s parent agent limit id s' h = ground arith

close_attempts :
    (s : State) (node : ℕ) (s' : State)
    → close_admission s node ≡ ok s'
    → (s'.attempts ≡ s.attempts) × (s'.next_attempt ≡ s.next_attempt)
unfolding close_admission
close_attempts s node s' h = ground arith

shutdown_attempts :
    (s : State) (node : ℕ) (s' : State)
    → shutdown s node ≡ ok s'
    → (s'.attempts ≡ s.attempts) × (s'.next_attempt ≡ s.next_attempt)
unfolding shutdown
shutdown_attempts s node s' h = ground arith

settle-lookup :
    (s : State) (r : Reservation) (c : Charge) (x : Settlement) (s' : State) (id : ℕ)
    → settle s r c ≡ ok (x, s')
    → r.id ≢ id
    → lookup id s'.attempts ≡ lookup id s.attempts
settle-lookup s r c x s' id h apart =
    let k = settle-Settled s r c x s' h in
    let e = lookup-erase r.id id s.attempts in
    elim (Bool-cases (id == r.id)) [
      | inl same ↦ absurd (apart (ground (arith, same)))
      | inr other ↦ ground (arith, k, e, other)
    ]

reserve-lookup :
    (s : State) (node prompt_estimate requested : ℕ) (r : Reservation) (s' : State) (id : ℕ)
    → reserve s node prompt_estimate requested ≡ ok (r, s')
    → id < s.next_attempt
    → lookup id s'.attempts ≡ lookup id s.attempts
reserve-lookup s node prompt_estimate requested r s' id h given =
    let k = reserve-Reserved s node prompt_estimate requested r s' h in
    ground (arith, k, lookup-insert r.id id (node, r.tokens) s.attempts)

-- A call of another owner: it settles no reservation with this identifier.
abbrev pub Spares : {l : Limits} {s s' : State} → ℕ → Step l s s' → Type 0
Spares id (settled r c x e) = r.id ≢ id
Spares id _ = Unit {0}

-- A call that settles no attempt with an identifier leaves that attempt as it is.
pub Step-lookup :
    (l : Limits) (s s' : State) (id : ℕ) (step : Step l s s')
    → id < s.next_attempt
    → Spares id step
    → lookup id s'.attempts ≡ lookup id s.attempts
Step-lookup l s s' id (admitted parent agent limit i e) given spared =
    ground (arith, admit_attempts l s parent agent limit i s' e)
Step-lookup l s s' id (reserved node prompt_estimate requested r word e) given spared =
    reserve-lookup s node prompt_estimate requested r s' id e given
Step-lookup l s s' id (settled r c x e) given spared = settle-lookup s r c x s' id e spared
Step-lookup l s s' id (closed node e) given spared = ground (arith, close_attempts s node s' e)
Step-lookup l s s' id (ended node e) given spared = ground (arith, shutdown_attempts s node s' e)

-- The numbering never goes back.
pub Step-numbers : (l : Limits) (s s' : State) → Step l s s' → s.next_attempt ≤ s'.next_attempt
Step-numbers l s s' (admitted parent agent limit i e) =
    ground (arith, admit_attempts l s parent agent limit i s' e)
Step-numbers l s s' (reserved node prompt_estimate requested r word e) =
    let k = reserve-Reserved s node prompt_estimate requested r s' e in
    ground (arith, k, add64_exact r.id 1)
Step-numbers l s s' (settled r c x e) = ground (arith, settle-Settled s r c x s' e)
Step-numbers l s s' (closed node e) = ground (arith, close_attempts s node s' e)
Step-numbers l s s' (ended node e) = ground (arith, shutdown_attempts s node s' e)

-- No call brings a spent attempt back.
pub Step-Spent : (l : Limits) (s s' : State) (id : ℕ) → Step l s s' → Spent s id → Spent s' id
Step-Spent l s s' id (admitted parent agent limit i e) p =
    ground (arith, p, admit_attempts l s parent agent limit i s' e)
Step-Spent l s s' id (reserved node prompt_estimate requested r word e) p =
    reserve-Spent s node prompt_estimate requested r s' id word e p
Step-Spent l s s' id (settled r c x e) p = settle-Spent s r c x s' id e p
Step-Spent l s s' id (closed node e) p = ground (arith, p, close_attempts s node s' e)
Step-Spent l s s' id (ended node e) p = ground (arith, p, shutdown_attempts s node s' e)
