-- ===== src/Ledger/Budget.antt =====
-- crates/core/src/ledger.rs, `admit`, `reserve` and `settle` as their callers see them: one call
-- after another, and the calls that fail.
use kyora.Base.{
  ℕ, suc, ◌+◌, ◌≤◌, ◌<◌, ◌≡◌, refl, ap, ◌≢◌, ◌⊎◌, Option, none, some, inl, inr, List, ◌∷◌, Bool,
  true, false, arith, if◌then◌else◌, get_elem?, modify, modify_each, contains, Option-cases,
  Bool-cases, min, ok, err, panic, get_elem?-lt, get_elem?-modify,
}
use kyora.Base.Words.{add64, add64_exact, sub64_exact, u64_mod}
use kyora.Base.Maps.{lookup, lookup-insert, lookup-erase}
use kyora.Protocol.Counters.{Usage}
use kyora.Ledger.{
  Scope, State, Reservation, Settlement, Charge, reserve, settle, add_reserved, settle_scope,
  add_own, charge_of, remaining, remaining_at, headroom, admit,
}
use kyora.Ledger.Defaults.{Limits, min_output_tokens}
use kyora.Ledger.Ancestors.{path, Falls, path_lem, path-modify_each}
use kyora.Ledger.Invariant.{InRange, Inv}
use kyora.Ledger.Updates.{get_elem?-modify_each}
use kyora.Ledger.Reserving.{add_reserved-parent, reserve-Reserved, Reserved-room, headroom-le}
use kyora.Ledger.Settling.{settle-Settled}

-- With the invariant and limits that are words, a successful reservation is the prompt estimate
-- plus a positive output cap, between the smallest allowed and the requested one. Every scope on
-- the path to the root was open, stays within its limit with the new tokens reserved, and has them
-- reserved; a scope off the path does not change.
pub reserve_fits :
    (l : Limits) (s : State) (node prompt_estimate requested : ℕ) (r : Reservation) (s' : State)
    (i : ℕ) (n : Scope) (ids : List ℕ)
    → InRange l
    → Inv l s
    → reserve s node prompt_estimate requested ≡ ok (r, s')
    → path s.scopes node ≡ some ids
    → get_elem? s.scopes i ≡ some n
    → (r.tokens ≡ prompt_estimate + r.max_tokens)
      × (min min_output_tokens requested ≤ r.max_tokens)
      × (r.max_tokens ≤ requested)
      × (0 < r.max_tokens)
      × (get_elem? s'.scopes i ≡ some (if contains i ids then add_reserved r.tokens n else n))
      × ((contains i ids ≡ false)
          ⊎ ((n.budget.closed ≡ false)
              × (n.budget.used + n.budget.reserved + r.tokens ≤ n.budget.limit)))
reserve_fits l s node prompt_estimate requested r s' i n ids w v e route found =
    let k = reserve-Reserved s node prompt_estimate requested r s' e in
    let a = v.accounts in
    let (exact, positive, room) = Reserved-room l s node prompt_estimate requested r s' w a k in
    let (up, onward, falls) = path_lem s.scopes node a.tree (get_elem?-lt s.scopes node k.found) in
    let along : k.ids ≡ node ∷ up = ground (arith, k.route, onward) in
    let ordered : Falls (suc node) k.ids = rw along (omega arith, falls) in
    let changed =
      get_elem?-modify_each (add_reserved r.tokens) (suc node) i k.ids s.scopes ordered in
    let same : ids ≡ k.ids = ground (arith, k.route) in
    let scopes = ap (λ (x : State). get_elem? x.scopes i) k.state in
    (
      exact,
      k.least,
      omega (arith, k.cap),
      omega (arith, k.least, k.asked),
      ground (arith, found, scopes, changed, same),
      elim (Bool-cases (contains i ids)) [
        | inl on ↦ inr (room i n found (rw (← same) on))
        | inr off ↦ inl off
      ],
    )

-- After a reservation has been settled, settling it again, with any charge, panics.
pub settle_once :
    (s : State) (r : Reservation) (c d : Charge) (x : Settlement) (s' : State)
    → settle s r c ≡ ok (x, s')
    → settle s' r d ≡ panic
unfolding settle
settle_once s r c d x s' e =
    let k = settle-Settled s r c x s' e in
    let gone : lookup r.id s'.attempts ≡ none =
      rw (k.state) (ground (arith, lookup-erase r.id r.id s.attempts)) in
    ground arith

-- With the invariant, a request for tokens by a node that is alive and admits work fails with
-- "budget exhausted" while a scope on the node's path is closed.
pub reserve_closed :
    (l : Limits) (s : State) (node prompt_estimate requested i : ℕ) (n m : Scope) (ids : List ℕ)
    → Inv l s
    → 0 < requested
    → get_elem? s.scopes node ≡ some m
    → (m.alive ≡ true) × (m.admission_closed ≡ false)
    → path s.scopes node ≡ some ids
    → contains i ids ≡ true
    → get_elem? s.scopes i ≡ some n
    → n.budget.closed ≡ true
    → reserve s node prompt_estimate requested ≡ err "budget exhausted"
unfolding reserve remaining_at remaining
reserve_closed l s node prompt_estimate requested i n m ids v pos found up route on here closed =
    let none_left : headroom s.scopes ids ≤ 0 = ground (arith, headroom-le s.scopes i ids on) in
    ground arith

-- In a state with the invariant no reservation panics, whatever its arguments.
pub reserve_total :
    (l : Limits) (s : State) (node prompt_estimate requested : ℕ)
    → Inv l s
    → reserve s node prompt_estimate requested ≢ panic
unfolding reserve
reserve_total l s node prompt_estimate requested v e =
    elim (Option-cases (get_elem? s.scopes node)) [
      | inl missing ↦ ground arith
      | inr (n, found) ↦
          ground (arith, path_lem s.scopes node v.accounts.tree (get_elem?-lt s.scopes node found))
    ]

-- In a state with the invariant no admission panics, whatever its arguments.
pub admit_total :
    (l : Limits) (s : State) (parent : ℕ) (agent : Bool) (limit : Option ℕ)
    → Inv l s
    → admit l s parent agent limit ≢ panic
unfolding admit
admit_total l s parent agent limit v e = elim (Option-cases (get_elem? s.scopes parent)) [
  | inl missing ↦ ground arith
  | inr (n, found) ↦
      ground (arith, path_lem s.scopes parent v.accounts.tree (get_elem?-lt s.scopes parent found))
]

give_back :
    (n : Scope) (tokens charged : ℕ) (u : Usage)
    → n.budget.limit < u64_mod
    → n.budget.used + n.budget.reserved + tokens ≤ n.budget.limit
    → ((settle_scope tokens charged u (add_reserved tokens n)).budget.reserved ≡ n.budget.reserved)
      × ((settle_scope tokens charged u (add_reserved tokens n)).budget.used
          ≡ add64 n.budget.used charged)
unfolding settle_scope add_reserved
give_back n tokens charged u word fits = (
  omega (
    arith,
    add64_exact n.budget.reserved tokens (omega arith),
    sub64_exact (add64 n.budget.reserved tokens) tokens
        (omega (arith, add64_exact n.budget.reserved tokens (omega arith)))
        (omega (arith, add64_exact n.budget.reserved tokens (omega arith))),
  ),
  refl,
)

-- With the invariant and limits that are words, after a reservation and its settlement the
-- reserved tokens of every scope are what they were before. On the path to the root the charge
-- has been added, modulo 2^64, to what is used; off the path what is used is unchanged. The
-- attempt is gone, and the charge is that of the usage or of the error policy.
pub settle-reserve :
    (l : Limits) (s : State) (node prompt_estimate requested : ℕ) (r : Reservation) (s' : State)
    (c : Charge) (x : Settlement) (s'' : State) (i : ℕ) (n n' : Scope) (ids : List ℕ)
    → InRange l
    → Inv l s
    → reserve s node prompt_estimate requested ≡ ok (r, s')
    → settle s' r c ≡ ok (x, s'')
    → path s.scopes node ≡ some ids
    → get_elem? s.scopes i ≡ some n
    → get_elem? s''.scopes i ≡ some n'
    → (n'.budget.reserved ≡ n.budget.reserved)
      × (n'.budget.used ≡ (
          if contains i ids then add64 n.budget.used (charge_of r.tokens c).0 else n.budget.used))
      × (lookup r.id s''.attempts ≡ none)
      × (x.charged ≡ (charge_of r.tokens c).0)
unfolding add_own
settle-reserve l s node prompt_estimate requested r s' c x s'' i n n' ids w v e f route found
      found₂ =
    let k = reserve-Reserved s node prompt_estimate requested r s' e in
    let q = settle-Settled s' r c x s'' f in
    let a = v.accounts in
    let (exact, positive, room) = Reserved-room l s node prompt_estimate requested r s' w a k in
    let (up, onward, falls) = path_lem s.scopes node a.tree (get_elem?-lt s.scopes node k.found) in
    let along : k.ids ≡ node ∷ up = ground (arith, k.route, onward) in
    let ordered : Falls (suc node) k.ids = rw along (omega arith, falls) in
    let same : ids ≡ k.ids = ground (arith, k.route) in
    let entry : (q.node ≡ node) × (q.tokens ≡ r.tokens) =
      ground (arith, q.entry, k.state, lookup-insert r.id r.id (node, r.tokens) s.attempts) in
    let again : q.ids ≡ k.ids = ground (
      arith,
      q.route,
      k.state,
      entry,
      k.route,
      path-modify_each (add_reserved r.tokens) k.ids s.scopes node (add_reserved-parent r.tokens),
    ) in
    let (charged, u) = charge_of r.tokens c in
    let g = settle_scope r.tokens charged u in
    let after : s''.scopes
        ≡ modify (add_own u) node
            (modify_each g k.ids (modify_each (add_reserved r.tokens) k.ids s.scopes)) =
      ground (arith, q.state, k.state, entry, again) in
    let first = get_elem?-modify_each (add_reserved r.tokens) (suc node) i k.ids s.scopes ordered in
    let second =
      get_elem?-modify_each g (suc node) i k.ids
        (modify_each (add_reserved r.tokens) k.ids s.scopes) ordered in
    let third =
      get_elem?-modify (add_own u) node i
        (modify_each g k.ids (modify_each (add_reserved r.tokens) k.ids s.scopes)) in
    let budget : n'.budget
        ≡ (if contains i k.ids then (g (add_reserved r.tokens n)).budget else n.budget) =
      ground (arith, first, second, third, ap (λ xs. get_elem? xs i) after) in
    let back : (n'.budget.reserved ≡ n.budget.reserved)
        × (n'.budget.used
            ≡ (if contains i k.ids then add64 n.budget.used charged else n.budget.used)) =
      elim (Bool-cases (contains i k.ids)) [
        | inl on ↦
            let fits = (room i n found on).1 in
            let word : n.budget.limit < u64_mod = omega (arith, (a.each i n found).limited) in
            ground (arith, budget, give_back n r.tokens charged u word fits)
        | inr off ↦ ground (arith, budget)
      ] in
    (
      back.0,
      rw same (back.1),
      ground (arith, q.state, lookup-erase r.id r.id s'.attempts),
      ground (arith, q.result, entry),
    )
