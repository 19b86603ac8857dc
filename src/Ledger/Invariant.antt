-- ===== src/Ledger/Invariant.antt =====
-- crates/core/src/ledger.rs: the invariant of the state between calls, of its counters and of its
-- scopes.
use kyora.Base.{
  ℕ, ◌+◌, ◌≤◌, ◌<◌, ◌≡◌, ◌⊎◌, Bool, true, not, ◌&&◌, some, List, length, get_elem?, count,
  modify_each, count-modify_each_same, ap, arith, modify, suc, [], ◌∷◌, ◌∙◌, sym, contains,
  if◌then◌else◌, length-modify,
}
use kyora.Base.Words.{u32_mod, u64_mod, saturating_add64}
use kyora.Base.Maps.{Below, Ascends}
use kyora.Ledger.{Scope, State, BudgetSnapshot, Attempts}
use kyora.Ledger.Defaults.{Limits}
use kyora.Ledger.Ancestors.{Tree}
use kyora.Ledger.Updates.{outstanding, Homed, outstanding-modify_each, modify_each_source}

-- The limits are words, with room for the next depth.
pub record InRange (l : Limits) : Type 0 where
  pub depth_fits : l.max_depth + 1 < u32_mod
  pub agents_fit : l.max_agents_total < u32_mod
  pub live_fits : l.max_agents_live < u32_mod
  pub llm_fits : l.max_llm_calls < u32_mod
  pub budget_fits : l.budget_tokens < u64_mod

abbrev pub is_live : Scope → Bool
is_live n = n.alive && n.agent

abbrev pub is_agent : Scope → Bool
is_agent n = n.agent

abbrev pub is_leaf : Scope → Bool
is_leaf n = not n.agent

pub record Counts (l : Limits) (s : State) : Type 0 where
  pub live_count : s.live ≡ count is_live s.scopes
  pub total_count : s.total ≡ count is_agent s.scopes
  pub llm_count : s.llm ≡ count is_leaf s.scopes
  pub live_limit : s.live ≤ l.max_agents_live
  pub total_limit : s.total ≤ l.max_agents_total
  pub llm_limit : s.llm ≤ l.max_llm_calls

-- A scope is closed, or what is used and reserved is within its limit.
pub record Sound (b : BudgetSnapshot) : Type 0 where
  pub used_word : b.used < u64_mod
  pub reserved_word : b.reserved < u64_mod
  pub within : (b.closed ≡ true) ⊎ (saturating_add64 b.used b.reserved ≤ b.limit)

pub record ScopeInv (l : Limits) (xs : List Scope) (m : Attempts) (i : ℕ) (n : Scope) : Type 0 where
  pub books : n.budget.reserved ≡ outstanding xs i m
  pub sound : Sound n.budget
  pub limited : n.budget.limit ≤ l.budget_tokens
  pub depth_limit : n.depth ≤ l.max_depth

pub record Accounts (l : Limits) (s : State) : Type 0 where
  pub tree : Tree s.scopes
  pub each :
      (i : ℕ) (n : Scope) → get_elem? s.scopes i ≡ some n → ScopeInv l s.scopes s.attempts i n
  pub numbered : Below s.next_attempt s.attempts
  pub ordered : Ascends 0 s.attempts
  pub homed : Homed (length s.scopes) s.attempts

pub record Inv (l : Limits) (s : State) : Type 0 where
  pub counts : Counts l s
  pub accounts : Accounts l s

-- An update leaves alone what the counters count.
abbrev pub KeepsFlags : (Scope → Scope) → Type 0
KeepsFlags f = (n : Scope) → ((f n).alive ≡ n.alive) × ((f n).agent ≡ n.agent)

pub Counts-modify_each :
    (l : Limits) (s s' : State) (f : Scope → Scope) (is : List ℕ)
    → KeepsFlags f
    → Counts l s
    → s'.scopes ≡ modify_each f is s.scopes
    → (s'.live ≡ s.live) × (s'.total ≡ s.total) × (s'.llm ≡ s.llm)
    → Counts l s'
Counts-modify_each l s s' f is h c e same = record {
  live_count = omega (arith, ap (count is_live) e, kept is_live (λ n. ground (arith, h n)));
  total_count = omega (arith, ap (count is_agent) e, kept is_agent (λ n. (h n).1));
  llm_count = omega (arith, ap (count is_leaf) e, kept is_leaf (λ n. ground (arith, h n)));
  live_limit = omega arith;
  total_limit = omega arith;
  llm_limit = omega arith;
}
  where
    kept :
        (p : Scope → Bool)
        → ((n : Scope) → p (f n) ≡ p n)
        → count p (modify_each f is s.scopes) ≡ count p s.scopes
    kept p k = count-modify_each_same p f is s.scopes k

-- An update leaves alone what the books are kept in.
abbrev pub KeepsBooks : (Scope → Scope) → Type 0
KeepsBooks f =
    (n : Scope) → ((f n).parent ≡ n.parent) × ((f n).depth ≡ n.depth) × ((f n).budget ≡ n.budget)

pub Accounts-modify :
    (l : Limits) (s : State) (f : Scope → Scope) (k : ℕ)
    → KeepsBooks f
    → Accounts l s
    → Accounts l (record s { scopes = modify f k s.scopes })
Accounts-modify l s f k h a = record {
  tree = λ i n p e g.
      let (old, found, now) = source i n e in a.tree i old p found (ground (arith, h old, now, g));
  each = λ i n e.
      let (old, found, now) = source i n e in
      let inv = a.each i old found in
      let kept : (n.budget ≡ old.budget) × (n.depth ≡ old.depth) = ground (arith, h old, now) in
      let books = outstanding-modify_each f (k ∷ []) s.scopes i s.attempts (λ m. (h m).0) in
      record {
        books = ap (λ (b : BudgetSnapshot). b.reserved) kept.0 ∙ inv.books ∙ sym books;
        sound = rw (kept.0) (inv.sound);
        limited = rw (kept.0) (inv.limited);
        depth_limit = rw (kept.1) (inv.depth_limit);
      };
  numbered = a.numbered;
  ordered = a.ordered;
  homed = rw (length-modify f k s.scopes) a.homed;
}
  where
    source :
        (i : ℕ) (n : Scope)
        → get_elem? (modify f k s.scopes) i ≡ some n
        → (old : Scope) × (get_elem? s.scopes i ≡ some old)
          × (n ≡ (if contains i (k ∷ []) then f old else old))
    source i n e = modify_each_source f (suc k) i (k ∷ []) s.scopes n (omega arith) e
