-- ===== src/Ledger/Ending.antt =====
-- crates/core/src/ledger.rs, `close_admission` and `shutdown`: one flag of one scope, and the live
-- agents' counter.
use kyora.Base.{
  ℕ, suc, ◌≡◌, refl, some, inl, inr, List, [], ◌∷◌, true, false, arith, if◌then◌else◌, get_elem?,
  modify, count, Option-cases, Bool-cases, ok, count-modify_same, count-modify_drop, count_pos,
  zero, get_elem?-modify,
}
use kyora.Base.Words.{sub32, sub32_exact}
use kyora.Ledger.{Scope, State, close_admission, close_node, shutdown, shut}
use kyora.Ledger.Defaults.{Limits}
use kyora.Ledger.Invariant.{
  InRange, Counts, Inv, is_live, is_agent, is_leaf, KeepsFlags, KeepsBooks, Counts-modify_each,
  Accounts-modify,
}

close_node-keeps : KeepsBooks close_node
unfolding close_node
close_node-keeps n = (refl, refl, refl)

close_node-flags : KeepsFlags close_node
unfolding close_node
close_node-flags n = (refl, refl)

pub close_admission-Inv :
    (l : Limits) (s : State) (node : ℕ) (s' : State)
    → Inv l s
    → close_admission s node ≡ ok s'
    → Inv l s'
unfolding close_admission
close_admission-Inv l s node s' i e = elim (Option-cases (get_elem? s.scopes node)) [
  | inl missing ↦ absurd (ground arith)
  | inr (n, found) ↦
      let after : State = record s { scopes = modify close_node node s.scopes } in
      let same : s' ≡ after = ground arith in
      rw same (record {
        counts =
            Counts-modify_each l s after close_node (node ∷ []) close_node-flags i.counts refl
              (refl, refl, refl);
        accounts = Accounts-modify l s close_node node close_node-keeps i.accounts;
      })
]

shut-keeps : KeepsBooks shut
unfolding shut
shut-keeps n = (refl, refl, refl)

shut-counts :
    (n : Scope)
    → (is_live (shut n) ≡ false) × (is_agent (shut n) ≡ is_agent n) × (is_leaf (shut n) ≡ is_leaf n)
unfolding shut
shut-counts n = (refl, refl, refl)

-- Of two scopes that are no live agents neither is counted.
shut-leaf :
    (n : Scope) (i : ℕ) (xs : List Scope)
    → get_elem? xs i ≡ some n
    → n.agent ≡ false
    → count is_live (modify shut i xs) ≡ count is_live xs
unfolding shut
shut-leaf n i [] e h = refl
shut-leaf n zero (x ∷ xs) e h = ground arith
shut-leaf n (suc i) (x ∷ xs) e h = omega (arith, shut-leaf n i xs e h)

shutdown-Counts :
    (l : Limits) (s : State) (node : ℕ) (n : Scope)
    → InRange l
    → Counts l s
    → get_elem? s.scopes node ≡ some n
    → n.alive ≡ true
    → Counts l (record s {
      scopes = modify shut node s.scopes;
      live = if n.agent then sub32 s.live 1 else s.live;
    })
shutdown-Counts l s node n r c e up = elim (Bool-cases n.agent) [
  | inl agent ↦
      let live : is_live n ≡ true = ground arith in
      rw agent (record {
        live_count = omega (
          arith,
          count-modify_drop is_live shut node s.scopes n e live (shut-counts n).0,
          sub32_exact s.live 1 (omega (arith, count_pos is_live node s.scopes n e live))
              (omega arith),
        );
        total_count =
            omega (arith, count-modify_same is_agent shut node s.scopes (λ m. (shut-counts m).1));
        llm_count =
            omega (arith, count-modify_same is_leaf shut node s.scopes (λ m. (shut-counts m).2));
        live_limit = omega (
          arith,
          sub32_exact s.live 1 (omega (arith, count_pos is_live node s.scopes n e live))
              (omega arith),
        );
        total_limit = c.total_limit;
        llm_limit = c.llm_limit;
      })
  | inr leaf ↦ rw leaf (record {
    live_count = omega (arith, shut-leaf n node s.scopes e leaf);
    total_count =
        omega (arith, count-modify_same is_agent shut node s.scopes (λ m. (shut-counts m).1));
    llm_count =
        omega (arith, count-modify_same is_leaf shut node s.scopes (λ m. (shut-counts m).2));
    live_limit = c.live_limit;
    total_limit = c.total_limit;
    llm_limit = c.llm_limit;
  })
]

pub shutdown-Inv :
    (l : Limits) (s : State) (node : ℕ) (s' : State)
    → InRange l
    → Inv l s
    → shutdown s node ≡ ok s'
    → Inv l s'
unfolding shutdown
shutdown-Inv l s node s' r i e = elim (Option-cases (get_elem? s.scopes node)) [
  | inl missing ↦ absurd (ground arith)
  | inr (n, found) ↦ elim (Bool-cases n.alive) [
    | inl up ↦
        let live : ℕ = if n.agent then sub32 s.live 1 else s.live in
        let same : s' ≡ record s { scopes = modify shut node s.scopes; live = live } =
          ground arith in
        let books = Accounts-modify l s shut node shut-keeps i.accounts in
        rw same (record {
          counts = shutdown-Counts l s node n r i.counts found up;
          accounts = record {
            tree = books.tree;
            each = books.each;
            numbered = books.numbered;
            ordered = books.ordered;
            homed = books.homed;
          };
        })
    | inr down ↦ let same : s' ≡ s = ground arith in rw same i
  ]
]

-- After a shutdown, shutting the same node down again succeeds and changes nothing.
pub shutdown_idem :
    (s : State) (node : ℕ) (s' : State) → shutdown s node ≡ ok s' → shutdown s' node ≡ ok s'
unfolding shutdown shut
shutdown_idem s node s' e = elim (Option-cases (get_elem? s.scopes node)) [
  | inl missing ↦ absurd (ground arith)
  | inr (n, found) ↦ elim (Bool-cases n.alive) [
    | inl up ↦ ground (arith, get_elem?-modify shut node node s.scopes)
    | inr down ↦ ground arith
  ]
]
