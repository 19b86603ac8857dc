-- ===== src/Ledger/Admission.antt =====
-- crates/core/src/ledger.rs, `admit`: what a success says and does, and the invariant after it.
use kyora.Base.{
  ℕ, ◌≤◌, ◌<◌, ◌≡◌, refl, ◌∙◌, Option, some, inl, inr, List, [], ◌∷◌, ◌++◌, Bool, true, false,
  arith, ◌==◌, length, get_elem?, any, Option-cases, Bool-cases, min, ok, count-append,
  get_elem?-snoc, get_elem?-lt, length-append, sym,
}
use kyora.Base.Words.{add32, add32_exact, saturating_add64}
use kyora.Ledger.{Scope, State, admit, new_scope, count_node, from_bool, unwrap_or, remaining_at}
use kyora.Ledger.Defaults.{Limits}
use kyora.Ledger.Ancestors.{path}
use kyora.Ledger.Invariant.{InRange, Counts, Accounts, Inv, Sound, is_live, is_agent, is_leaf}
use kyora.Ledger.Updates.{Homed-mono, outstanding-append, outstanding_beyond}

-- What holds when a child has been admitted.
pub record Admitted (l : Limits) (s : State) (parent : ℕ) (agent : Bool) (limit : Option ℕ) (id : ℕ)
    (s' : State) : Type 0 where
  pub up : Scope
  pub ids : List ℕ
  pub found : get_elem? s.scopes parent ≡ some up
  pub working : up.alive ≡ true
  pub route : path s.scopes parent ≡ some ids
  pub solvent : any (λ i. remaining_at s.scopes i == 0) ids ≡ false
  pub agent_room :
      agent ≡ true
      → (add32 up.depth 1 ≤ l.max_depth)
        × (s.live < l.max_agents_live)
        × (s.total < l.max_agents_total)
  pub leaf_room : agent ≡ false → s.llm < l.max_llm_calls
  pub fresh : id ≡ length s.scopes
  pub state :
      s'
      ≡ count_node agent (record s {
        scopes =
            s.scopes
            ++ new_scope
                (some parent)
                (add32 up.depth (from_bool agent))
                agent
                (min (unwrap_or limit l.budget_tokens) up.budget.limit)
              ∷ [];
      })

admit-Admitted :
    (l : Limits) (s : State) (parent : ℕ) (agent : Bool) (limit : Option ℕ) (id : ℕ) (s' : State)
    → admit l s parent agent limit ≡ ok (id, s')
    → Admitted l s parent agent limit id s'
unfolding admit
admit-Admitted l s parent agent limit id s' e = elim (Option-cases (get_elem? s.scopes parent)) [
  | inl missing ↦ absurd (ground arith)
  | inr (p, found) ↦ elim (Option-cases (path s.scopes parent)) [
    | inl lost ↦ absurd (ground arith)
    | inr (is, route) ↦ record {
      up = p;
      ids = is;
      found = found;
      working = ground arith;
      route = route;
      solvent = ground arith;
      agent_room = λ a. ground arith;
      leaf_room = λ a. ground arith;
      fresh = ground arith;
      state = ground arith;
    }
  ]
]

-- A node takes one place in the counters, and a place was free.
admit-Counts :
    (l : Limits) (s : State) (parent : ℕ) (agent : Bool) (limit : Option ℕ) (id : ℕ) (s' : State)
    → InRange l
    → Counts l s
    → Admitted l s parent agent limit id s'
    → Counts l s'
unfolding count_node new_scope
admit-Counts l s parent true limit id s' r c a = rw (a.state) (
    let scopes = s.scopes in
    let y =
      new_scope (some parent) (add32 a.up.depth 1) true
        (min (unwrap_or limit l.budget_tokens) a.up.budget.limit) in
    ground (
      arith,
      a.agent_room refl,
      add32_exact s.live 1,
      add32_exact s.total 1,
      count-append is_live scopes (y ∷ []),
      count-append is_agent scopes (y ∷ []),
      count-append is_leaf scopes (y ∷ []),
    ))
admit-Counts l s parent false limit id s' r c a = rw (a.state) (
    let scopes = s.scopes in
    let y =
      new_scope (some parent) (add32 a.up.depth 0) false
        (min (unwrap_or limit l.budget_tokens) a.up.budget.limit) in
    ground (
      arith,
      a.leaf_room refl,
      add32_exact s.llm 1,
      count-append is_live scopes (y ∷ []),
      count-append is_agent scopes (y ∷ []),
      count-append is_leaf scopes (y ∷ []),
    ))

-- A scope whose parent is there and whose books are empty may be added.
grow-Accounts :
    (l : Limits) (s : State) (y : Scope) (parent : ℕ)
    → Accounts l s
    → parent < length s.scopes
    → y.parent ≡ some parent
    → y.budget.reserved ≡ 0
    → Sound y.budget
    → y.budget.limit ≤ l.budget_tokens
    → y.depth ≤ l.max_depth
    → Accounts l (record s { scopes = s.scopes ++ y ∷ [] })
grow-Accounts l s y parent a h up empty sound limited depth = record {
  tree = λ i n p e f. elim (Bool-cases (i == length s.scopes)) [
    | inl new ↦ ground (arith, get_elem?-snoc s.scopes y i)
    | inr old ↦ a.tree i n p (ground (arith, get_elem?-snoc s.scopes y i)) f
  ];
  each = λ i n e. elim (Bool-cases (i == length s.scopes)) [
    | inl new ↦
        let here : i ≡ length s.scopes = ground arith in
        let same : n ≡ y = ground (arith, get_elem?-snoc s.scopes y i) in
        rw (same, here)
          (record {
            books =
                empty
                ∙ sym (
                    outstanding-append s.scopes y (length s.scopes) s.attempts a.tree a.homed
                    ∙ outstanding_beyond s.scopes s.attempts a.tree a.homed);
            sound = sound;
            limited = limited;
            depth_limit = depth;
          })
    | inr old ↦
        let inv = a.each i n (ground (arith, get_elem?-snoc s.scopes y i)) in
        record {
          books = inv.books ∙ sym (outstanding-append s.scopes y i s.attempts a.tree a.homed);
          sound = inv.sound;
          limited = inv.limited;
          depth_limit = inv.depth_limit;
        }
  ];
  numbered = a.numbered;
  ordered = a.ordered;
  homed =
      Homed-mono (length s.scopes) (length (s.scopes ++ y ∷ [])) s.attempts
        (omega (arith, length-append s.scopes (y ∷ []))) a.homed;
}

count_node-Accounts :
    (l : Limits) (agent : Bool) (s : State) → Accounts l s → Accounts l (count_node agent s)
unfolding count_node
count_node-Accounts l true s a = record {
  tree = a.tree;
  each = a.each;
  numbered = a.numbered;
  ordered = a.ordered;
  homed = a.homed;
}
count_node-Accounts l false s a = record {
  tree = a.tree;
  each = a.each;
  numbered = a.numbered;
  ordered = a.ordered;
  homed = a.homed;
}

depth_of_child :
    (l : Limits) (agent : Bool) (depth : ℕ)
    → InRange l
    → depth ≤ l.max_depth
    → (agent ≡ true → add32 depth 1 ≤ l.max_depth)
    → add32 depth (from_bool agent) ≤ l.max_depth
depth_of_child l true depth r h k = k refl
depth_of_child l false depth r h k = omega (arith, add32_exact depth 0)

admit-Accounts :
    (l : Limits) (s : State) (parent : ℕ) (agent : Bool) (limit : Option ℕ) (id : ℕ) (s' : State)
    → InRange l
    → Accounts l s
    → Admitted l s parent agent limit id s'
    → Accounts l s'
unfolding new_scope saturating_add64
admit-Accounts l s parent agent limit id s' r c a =
    let y =
      new_scope (some parent) (add32 a.up.depth (from_bool agent)) agent
        (min (unwrap_or limit l.budget_tokens) a.up.budget.limit) in
    let inv = c.each parent a.up a.found in
    rw (a.state) (
      count_node-Accounts l agent _ (
        grow-Accounts l s y parent c (get_elem?-lt s.scopes parent a.found) refl refl
          (record {
            used_word = omega arith;
            reserved_word = omega arith;
            within = inr (omega arith);
          })
          (omega (arith, inv.limited))
          (depth_of_child l agent a.up.depth r inv.depth_limit (λ e. (a.agent_room e).0))))

-- Admission keeps the invariant.
pub admit-Inv :
    (l : Limits) (s : State) (parent : ℕ) (agent : Bool) (limit : Option ℕ) (id : ℕ) (s' : State)
    → InRange l
    → Inv l s
    → admit l s parent agent limit ≡ ok (id, s')
    → Inv l s'
admit-Inv l s parent agent limit id s' r v e =
    let a = admit-Admitted l s parent agent limit id s' e in
    record {
      counts = admit-Counts l s parent agent limit id s' r v.counts a;
      accounts = admit-Accounts l s parent agent limit id s' r v.accounts a;
    }
