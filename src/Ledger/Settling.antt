-- ===== src/Ledger/Settling.antt =====
-- crates/core/src/ledger.rs, `settle`: what it does to each scope of the path and to the attempts,
-- and the invariant after it.
use kyora.Base.{
  ℕ, suc, ◌+◌, ◌-◌, ◌≤◌, ◌<◌, ◌≡◌, refl, some, inl, inr, List, [], ◌∷◌, arith, if◌then◌else◌,
  length, modify, modify_each, contains, Option-cases, Bool-cases, ok, length-modify_each,
}
use kyora.Base.Words.{sub64_exact, add64-lt}
use kyora.Base.Maps.{lookup, erase, Ascends, erase-Below, erase-Ascends, sum_over-erase}
use kyora.Protocol.Counters.{Usage}
use kyora.Ledger.{
  Scope, State, Reservation, Settlement, Charge, Attempts, over_limit, settle, settle_scope,
  add_own, charge_of,
}
use kyora.Ledger.Defaults.{Limits}
use kyora.Ledger.Ancestors.{Falls, path, path_lem}
use kyora.Ledger.Invariant.{
  Accounts, Inv, Sound, KeepsFlags, KeepsBooks, Counts-modify_each, Accounts-modify,
}
use kyora.Ledger.Updates.{
  share, outstanding, outstanding-modify_each, modify_each_source, erase-Homed, lookup-Homed,
}

-- What holds when a reservation has been settled.
pub record Settled (s : State) (r : Reservation) (c : Charge) (x : Settlement) (s' : State)
    : Type 0 where
  pub node : ℕ
  pub tokens : ℕ
  pub ids : List ℕ
  pub entry : lookup r.id s.attempts ≡ some (node, tokens)
  pub route : path s.scopes node ≡ some ids
  pub result :
      x ≡ record { charged = (charge_of tokens c).0; excess = (charge_of tokens c).0 - tokens }
  pub state : s' ≡ record s {
    scopes = modify (add_own (charge_of tokens c).1) node (
        modify_each
          (settle_scope tokens (charge_of tokens c).0 (charge_of tokens c).1)
          ids
          s.scopes);
    attempts = erase r.id s.attempts;
  }

pub settle-Settled :
    (s : State) (r : Reservation) (c : Charge) (x : Settlement) (s' : State)
    → settle s r c ≡ ok (x, s')
    → Settled s r c x s'
unfolding settle
settle-Settled s r c x s' e = elim (Option-cases (lookup r.id s.attempts)) [
  | inl absent ↦ absurd (ground arith)
  | inr ((node, tokens), here) ↦ elim (Option-cases (path s.scopes node)) [
    | inl lost ↦ absurd (ground arith)
    | inr (is, route) ↦ record {
      node = node;
      tokens = tokens;
      ids = is;
      entry = here;
      route = route;
      result = ground arith;
      state = ground arith;
    }
  ]
]

-- When the accounts of the invariant hold, settling a reservation whose attempt is outstanding
-- succeeds, for any charge.
pub settle_total :
    (l : Limits) (s : State) (r : Reservation) (c : Charge) (node tokens : ℕ)
    → Accounts l s
    → lookup r.id s.attempts ≡ some (node, tokens)
    → (x : Settlement) × (s' : State) × (settle s r c ≡ ok (x, s'))
unfolding settle
settle_total l s r c node tokens a here =
    let (ids, route, falls) =
      path_lem s.scopes node a.tree
        (lookup-Homed (length s.scopes) r.id node tokens s.attempts a.homed here) in
    let (charged, u) = charge_of tokens c in
    (
      record { charged = charged; excess = charged - tokens },
      record s {
        scopes =
            modify (add_own u) node
              (modify_each (settle_scope tokens charged u) (node ∷ ids) s.scopes);
        attempts = erase r.id s.attempts;
      },
      ground arith,
    )

-- The released tokens leave the books of exactly the scopes on the path.
outstanding-erase :
    (xs : List Scope) (i id node tokens : ℕ) (m : Attempts) (ids : List ℕ)
    → Ascends 0 m
    → lookup id m ≡ some (node, tokens)
    → path xs node ≡ some ids
    → outstanding xs i m ≡ (if contains i ids then tokens else 0) + outstanding xs i (erase id m)
unfolding outstanding share
outstanding-erase xs i id node tokens m ids asc here e =
    ground (arith, sum_over-erase (share xs i) id 0 (node, tokens) m asc here)

settle_scope-keeps :
    (tokens charged : ℕ) (u : Usage) (n : Scope)
    → ((settle_scope tokens charged u n).parent ≡ n.parent)
      × ((settle_scope tokens charged u n).depth ≡ n.depth)
      × ((settle_scope tokens charged u n).budget.limit ≡ n.budget.limit)
unfolding settle_scope
settle_scope-keeps tokens charged u n = (refl, refl, refl)

settle_scope-flags : (tokens charged : ℕ) (u : Usage) → KeepsFlags (settle_scope tokens charged u)
unfolding settle_scope
settle_scope-flags tokens charged u n = (refl, refl)

-- A settlement that uses more than the limit closes the scope.
Sound-settle :
    (n : Scope) (tokens charged : ℕ) (u : Usage)
    → Sound n.budget
    → tokens ≤ n.budget.reserved
    → Sound (settle_scope tokens charged u n).budget
      × ((settle_scope tokens charged u n).budget.reserved + tokens ≡ n.budget.reserved)
unfolding settle_scope over_limit
Sound-settle n tokens charged u v h =
    let exact = sub64_exact n.budget.reserved tokens h v.reserved_word in
    (
      record {
        used_word = add64-lt n.budget.used charged;
        reserved_word = omega (arith, exact);
        within = ground arith;
      },
      omega (arith, exact),
    )

release-Accounts :
    (l : Limits) (s : State) (id node tokens charged : ℕ) (u : Usage) (ids : List ℕ)
    → Accounts l s
    → lookup id s.attempts ≡ some (node, tokens)
    → path s.scopes node ≡ some ids
    → Accounts l (record s {
      scopes = modify_each (settle_scope tokens charged u) ids s.scopes;
      attempts = erase id s.attempts;
    })
release-Accounts l s id node tokens charged u ids a here route =
    let f = settle_scope tokens charged u in
    let home : node < length s.scopes =
      lookup-Homed (length s.scopes) id node tokens s.attempts a.homed here in
    let (up, onward, falls) = path_lem s.scopes node a.tree home in
    let along : ids ≡ node ∷ up = ground (arith, route, onward) in
    let ordered : Falls (suc node) ids = rw along (omega arith, falls) in
    let m = erase id s.attempts in
    let books : (i : ℕ)
        → outstanding s.scopes i s.attempts
          ≡ (if contains i ids then tokens else 0) + outstanding (modify_each f ids s.scopes) i m =
      λ i.
        rw
          (outstanding-modify_each f ids s.scopes i m
            (λ n. (settle_scope-keeps tokens charged u n).0))
          (outstanding-erase s.scopes i id node tokens s.attempts ids a.ordered here route) in
    record {
      tree = λ i n p e g.
          let (old, found, now) = modify_each_source f (suc node) i ids s.scopes n ordered e in
          a.tree i old p found (ground (arith, settle_scope-keeps tokens charged u old, now, g));
      each = λ i n e.
          let (old, found, now) = modify_each_source f (suc node) i ids s.scopes n ordered e in
          let inv = a.each i old found in
          elim (Bool-cases (contains i ids)) [
            | inl on ↦
                let enough : tokens ≤ old.budget.reserved = ground (arith, books i, inv.books) in
                let (sound, less) = Sound-settle old tokens charged u inv.sound enough in
                let same : n ≡ f old = ground (arith, now) in
                rw same (record {
                  books = ground (arith, books i, inv.books, less);
                  sound = sound;
                  limited = ground (arith, settle_scope-keeps tokens charged u old, inv.limited);
                  depth_limit =
                      ground (arith, settle_scope-keeps tokens charged u old, inv.depth_limit);
                })
            | inr off ↦
                let same : n ≡ old = ground (arith, now) in
                rw same (record {
                  books = ground (arith, books i, inv.books);
                  sound = inv.sound;
                  limited = inv.limited;
                  depth_limit = inv.depth_limit;
                })
          ];
      numbered = erase-Below id s.next_attempt s.attempts a.numbered;
      ordered = erase-Ascends id 0 s.attempts a.ordered;
      homed =
          rw (length-modify_each f ids s.scopes)
            (erase-Homed (length s.scopes) id s.attempts a.homed);
    }

add_own-keeps : (u : Usage) → KeepsBooks (add_own u)
unfolding add_own
add_own-keeps u n = (refl, refl, refl)

add_own-flags : (u : Usage) → KeepsFlags (add_own u)
unfolding add_own
add_own-flags u n = (refl, refl)

-- A settlement keeps the invariant.
pub settle-Inv :
    (l : Limits) (s : State) (r : Reservation) (c : Charge) (x : Settlement) (s' : State)
    → Inv l s
    → settle s r c ≡ ok (x, s')
    → Inv l s'
settle-Inv l s r c x s' i e =
    let v = settle-Settled s r c x s' e in
    let (charged, u) = charge_of v.tokens c in
    let f = settle_scope v.tokens charged u in
    let mid : State = record s {
      scopes = modify_each f v.ids s.scopes;
      attempts = erase r.id s.attempts;
    } in
    rw (v.state) (record {
      counts =
          Counts-modify_each l mid _ (add_own u) (v.node ∷ []) (add_own-flags u)
            (Counts-modify_each l s mid f v.ids (settle_scope-flags v.tokens charged u) i.counts
              refl (refl, refl, refl))
            refl (refl, refl, refl);
      accounts =
          Accounts-modify l mid (add_own u) v.node (add_own-keeps u)
            (release-Accounts l s r.id v.node v.tokens charged u v.ids i.accounts v.entry v.route);
    })
