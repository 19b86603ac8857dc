-- ===== src/Ledger/Reserving.antt =====
-- crates/core/src/ledger.rs, `reserve`: what a success says of the scopes on the node's path, and
-- the invariant after it.
use kyora.Base.{
  ℕ, suc, ◌+◌, ◌-◌, ◌≤◌, ◌<◌, ◌≡◌, refl, ◌∙◌, some, inl, inr, List, [], ◌∷◌, true, false, arith,
  if◌then◌else◌, length, get_elem?, modify_each, contains, Option-cases, Bool-cases, min, ok,
  length-modify_each, get_elem?-lt,
}
use kyora.Base.Words.{add64, add64_exact, saturating_add64, u64_mod}
use kyora.Base.Maps.{
  lookup, insert, Below, Below-mono, insert-Below, insert-Ascends, lookup-Below, sum_over-insert,
}
use kyora.Ledger.{
  Scope, State, BudgetSnapshot, Reservation, Attempts, remaining, reserve, remaining_at, headroom,
  add_reserved,
}
use kyora.Ledger.Defaults.{Limits, min_output_tokens}
use kyora.Ledger.Ancestors.{Falls, path, path_lem}
use kyora.Ledger.Invariant.{InRange, Accounts, Inv, Sound, KeepsFlags, Counts-modify_each}
use kyora.Ledger.Updates.{
  share, outstanding, outstanding-modify_each, modify_each_source, insert-Homed,
}

-- What holds when a reservation has been made.
pub record Reserved (s : State) (node prompt_estimate requested : ℕ) (r : Reservation) (s' : State)
    : Type 0 where
  pub scope : Scope
  pub ids : List ℕ
  pub found : get_elem? s.scopes node ≡ some scope
  pub working : (scope.alive ≡ true) × (scope.admission_closed ≡ false)
  pub route : path s.scopes node ≡ some ids
  pub asked : 0 < requested
  pub cap : r.max_tokens ≡ min requested (headroom s.scopes ids - prompt_estimate)
  pub least : min min_output_tokens requested ≤ r.max_tokens
  pub fits : prompt_estimate ≤ headroom s.scopes ids
  pub tokens : r.tokens ≡ add64 prompt_estimate r.max_tokens
  pub id : r.id ≡ s.next_attempt
  pub state : s' ≡ record s {
    scopes = modify_each (add_reserved r.tokens) ids s.scopes;
    next_attempt = add64 r.id 1;
    attempts = insert r.id (node, r.tokens) s.attempts;
  }

pub reserve-Reserved :
    (s : State) (node prompt_estimate requested : ℕ) (r : Reservation) (s' : State)
    → reserve s node prompt_estimate requested ≡ ok (r, s')
    → Reserved s node prompt_estimate requested r s'
unfolding reserve
reserve-Reserved s node prompt_estimate requested r s' e =
    elim (Option-cases (get_elem? s.scopes node)) [
      | inl missing ↦ absurd (ground arith)
      | inr (n, found) ↦ elim (Option-cases (path s.scopes node)) [
        | inl lost ↦ absurd (ground arith)
        | inr (is, route) ↦ record {
          scope = n;
          ids = is;
          found = found;
          working = ground arith;
          route = route;
          asked = ground arith;
          cap = ground arith;
          least = ground arith;
          fits = ground arith;
          tokens = ground arith;
          id = ground arith;
          state = ground arith;
        }
      ]
    ]

-- The headroom is at most what remains at each scope of the path.
pub headroom-le :
    (xs : List Scope) (i : ℕ) (ids : List ℕ)
    → contains i ids ≡ true
    → headroom xs ids ≤ remaining_at xs i
unfolding headroom
headroom-le xs i [] h = cc
headroom-le xs i (j ∷ []) h = ground arith
headroom-le xs i (j ∷ k ∷ ids) h = ground (arith, headroom-le xs i (k ∷ ids))

remaining-le : (b : BudgetSnapshot) → remaining b ≤ b.limit
unfolding remaining
remaining-le b = ground arith

-- A scope with something remaining is open, and what it takes on stays within its limit.
pub room_for :
    (b : BudgetSnapshot) (tokens : ℕ)
    → 0 < tokens
    → tokens ≤ remaining b
    → b.limit < u64_mod
    → (b.closed ≡ false) × (b.used + b.reserved + tokens ≤ b.limit)
unfolding remaining saturating_add64
room_for b tokens p h k = ground arith

-- Every scope on the path of a reservation is open and has room for it.
pub Reserved-room :
    (l : Limits) (s : State) (node prompt_estimate requested : ℕ) (r : Reservation) (s' : State)
    → InRange l
    → Accounts l s
    → (v : Reserved s node prompt_estimate requested r s')
    → (r.tokens ≡ prompt_estimate + r.max_tokens)
      × (0 < r.tokens)
      × ((i : ℕ) (n : Scope)
          → get_elem? s.scopes i ≡ some n
          → contains i v.ids ≡ true
          → (n.budget.closed ≡ false)
            × (n.budget.used + n.budget.reserved + r.tokens ≤ n.budget.limit))
unfolding remaining_at
Reserved-room l s node prompt_estimate requested r s' w a v =
    let room = headroom s.scopes v.ids in
    let below : (i : ℕ) (n : Scope)
        → get_elem? s.scopes i ≡ some n
        → contains i v.ids ≡ true
        → room ≤ remaining n.budget =
      λ i n e h. ground (arith, headroom-le s.scopes i v.ids h) in
    let (ids, route, falls) = path_lem s.scopes node a.tree (get_elem?-lt s.scopes node v.found) in
    let here : contains node v.ids ≡ true = ground (arith, route, v.route) in
    let top : room < u64_mod = omega (
      arith,
      below node v.scope v.found here,
      remaining-le v.scope.budget,
      (a.each node v.scope v.found).limited,
    ) in
    let exact : r.tokens ≡ prompt_estimate + r.max_tokens =
      v.tokens ∙ add64_exact prompt_estimate r.max_tokens (omega (arith, v.cap, v.fits)) in
    let positive : 0 < r.tokens = omega (arith, exact, v.least, v.asked) in
    (
      exact,
      positive,
      λ i n e h.
          room_for n.budget r.tokens positive (omega (arith, below i n e h, exact, v.cap, v.fits))
            (omega (arith, (a.each i n e).limited)),
    )

-- What a reservation leaves of a scope is still within its limit.
Sound-reserve :
    (n : Scope) (tokens : ℕ)
    → Sound n.budget
    → n.budget.limit < u64_mod
    → n.budget.used + n.budget.reserved + tokens ≤ n.budget.limit
    → Sound (add_reserved tokens n).budget
      × ((add_reserved tokens n).budget.reserved ≡ n.budget.reserved + tokens)
unfolding add_reserved saturating_add64
Sound-reserve n tokens v k h =
    let exact = add64_exact n.budget.reserved tokens (omega arith) in
    (
      record {
        used_word = v.used_word;
        reserved_word = omega (arith, exact);
        within = inr (omega (arith, exact));
      },
      exact,
    )

pub add_reserved-parent : (tokens : ℕ) (n : Scope) → (add_reserved tokens n).parent ≡ n.parent
unfolding add_reserved
add_reserved-parent tokens n = refl

add_reserved-keeps :
    (tokens : ℕ) (n : Scope)
    → ((add_reserved tokens n).budget.limit ≡ n.budget.limit)
      × ((add_reserved tokens n).depth ≡ n.depth)
unfolding add_reserved
add_reserved-keeps tokens n = (refl, refl)

add_reserved-flags : (tokens : ℕ) → KeepsFlags (add_reserved tokens)
unfolding add_reserved
add_reserved-flags tokens n = (refl, refl)

-- The reservation is entered in the books of exactly the scopes on its path.
outstanding-insert :
    (xs : List Scope) (i id node tokens : ℕ) (m : Attempts) (ids : List ℕ)
    → Below id m
    → path xs node ≡ some ids
    → outstanding xs i (insert id (node, tokens) m)
      ≡ (if contains i ids then tokens else 0) + outstanding xs i m
unfolding outstanding share
outstanding-insert xs i id node tokens m ids b e = elim (Option-cases (lookup id m)) [
  | inl absent ↦ ground (arith, sum_over-insert (share xs i) id (node, tokens) m absent)
  | inr (v, here) ↦ absurd (omega (arith, lookup-Below id id v m b here))
]

reserve-Accounts :
    (l : Limits) (s : State) (node prompt_estimate requested : ℕ) (r : Reservation) (s' : State)
    → InRange l
    → s.next_attempt + 1 < u64_mod
    → Accounts l s
    → Reserved s node prompt_estimate requested r s'
    → Accounts l s'
reserve-Accounts l s node prompt_estimate requested r s' w wrap a v =
    let (exact, positive, room) = Reserved-room l s node prompt_estimate requested r s' w a v in
    let (up, route, falls) = path_lem s.scopes node a.tree (get_elem?-lt s.scopes node v.found) in
    let onward : v.ids ≡ node ∷ up = ground (arith, v.route, route) in
    let ordered : Falls (suc node) v.ids = rw onward (omega arith, falls) in
    let after = modify_each (add_reserved r.tokens) v.ids s.scopes in
    let m = insert r.id (node, r.tokens) s.attempts in
    let below : Below r.id s.attempts = rw (v.id) (a.numbered) in
    let books : (i : ℕ)
        → outstanding after i m
          ≡ (if contains i v.ids then r.tokens else 0) + outstanding s.scopes i s.attempts =
      λ i.
        outstanding-modify_each (add_reserved r.tokens) v.ids s.scopes i m
          (add_reserved-parent r.tokens)
        ∙ outstanding-insert s.scopes i r.id node r.tokens s.attempts v.ids below v.route in
    rw (v.state) (record {
      tree = λ i n p e f.
          let (old, found, now) =
            modify_each_source (add_reserved r.tokens) (suc node) i v.ids s.scopes n ordered e in
          a.tree i old p found (ground (arith, add_reserved-parent r.tokens old, now, f));
      each = λ i n e.
          let (old, found, now) =
            modify_each_source (add_reserved r.tokens) (suc node) i v.ids s.scopes n ordered e in
          let inv = a.each i old found in
          elim (Bool-cases (contains i v.ids)) [
            | inl on ↦
                let (open_now, fits) = room i old found on in
                let (sound, more) =
                  Sound-reserve old r.tokens inv.sound (omega (arith, inv.limited)) fits in
                let same : n ≡ add_reserved r.tokens old = ground (arith, now) in
                rw same (record {
                  books = more ∙ ground (arith, books i, inv.books);
                  sound = sound;
                  limited = ground (arith, add_reserved-keeps r.tokens old, inv.limited);
                  depth_limit = ground (arith, add_reserved-keeps r.tokens old, inv.depth_limit);
                })
            | inr off ↦
                let same : n ≡ old = ground (arith, now) in
                rw same (record {
                  books = ground (arith, books i, inv.books);
                  sound = inv.sound;
                  limited = inv.limited;
                  depth_limit = inv.depth_limit;
                })
          ];
      numbered =
          let next : add64 r.id 1 ≡ r.id + 1 = add64_exact r.id 1 (omega (arith, v.id)) in
          insert-Below r.id (add64 r.id 1) (node, r.tokens) s.attempts (omega (arith, next))
            (Below-mono r.id (add64 r.id 1) s.attempts (omega (arith, next)) below);
      ordered = insert-Ascends r.id 0 (node, r.tokens) s.attempts (omega arith) a.ordered;
      homed =
          insert-Homed (length after) r.id node r.tokens s.attempts
            (omega (
              arith,
              length-modify_each (add_reserved r.tokens) v.ids s.scopes,
              get_elem?-lt s.scopes node v.found,
            ))
            (rw (length-modify_each (add_reserved r.tokens) v.ids s.scopes) a.homed);
    })

-- A reservation keeps the invariant.
pub reserve-Inv :
    (l : Limits) (s : State) (node prompt_estimate requested : ℕ) (r : Reservation) (s' : State)
    → InRange l
    → s.next_attempt + 1 < u64_mod
    → Inv l s
    → reserve s node prompt_estimate requested ≡ ok (r, s')
    → Inv l s'
reserve-Inv l s node prompt_estimate requested r s' w wrap i e =
    let v = reserve-Reserved s node prompt_estimate requested r s' e in
    record {
      counts = rw (v.state) (
          Counts-modify_each l s _ (add_reserved r.tokens) v.ids (add_reserved-flags r.tokens)
            i.counts refl (refl, refl, refl));
      accounts = reserve-Accounts l s node prompt_estimate requested r s' w wrap i.accounts v;
    }
