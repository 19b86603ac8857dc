-- ===== src/Tui/Upkeep.antt =====
-- crates/tui/src/app.rs: what every event, key and turn leaves true of the interface.
use kyora.Base.{
  ℕ, ◌≡◌, refl, true, none, some, List, [], ◌∷◌, map, Text, arith, Option-cases, inl, inr,
}
use kyora.Base.Maps.{lookup, insert, update, lookup-insert}
use package.kyora.Tui.Events.{Status, NodeKind, NodeSpec, UiEvent}
use package.kyora.Tui.App.{Node, App}
use package.kyora.Tui.Applying.{
  new_node, restart, start_node, finish_node, with_status, with_usage, with_remaining, apply,
  cancel_node, cancel_running, begin_turn,
}
use package.kyora.Tui.Visits.{Keyed, has_node}

-- A change of the nodes that forgets none of them.
record Holds (nodes nodes' : List (ℕ × Node)) : Type 0 where
  keyed : Keyed nodes → Keyed nodes'
  kept : (id : ℕ) → has_node id nodes ≡ true → has_node id nodes' ≡ true

update-Keyed :
    (k : ℕ) (f : Node → Node) (nodes : List (ℕ × Node))
    → ((n : Node) → (f n).spec.id ≡ n.spec.id)
    → Keyed nodes
    → Keyed (update k f nodes)
update-Keyed k f [] same h = tt
update-Keyed k f ((j, n) ∷ nodes) same h = ground (arith, same n, update-Keyed k f nodes same (h.1))

has_node-update :
    (k id : ℕ) (f : Node → Node) (nodes : List (ℕ × Node))
    → has_node id (update k f nodes) ≡ has_node id nodes
has_node-update k id f [] = refl
has_node-update k id f ((j, n) ∷ nodes) = ground (arith, has_node-update k id f nodes)

insert-Keyed :
    (k : ℕ) (n : Node) (nodes : List (ℕ × Node))
    → n.spec.id ≡ k
    → Keyed nodes
    → Keyed (insert k n nodes)
insert-Keyed k n [] e h = (e, tt)
insert-Keyed k n ((j, m) ∷ nodes) e h = ground (arith, insert-Keyed k n nodes e (h.1))

update-Holds :
    (k : ℕ) (f : Node → Node) (nodes : List (ℕ × Node))
    → ((n : Node) → (f n).spec.id ≡ n.spec.id)
    → Holds nodes (update k f nodes)
update-Holds k f nodes same = record {
  keyed = update-Keyed k f nodes same;
  kept = λ id h. rw (has_node-update k id f nodes) h;
}

insert-Holds :
    (k : ℕ) (n : Node) (nodes : List (ℕ × Node)) → n.spec.id ≡ k → Holds nodes (insert k n nodes)
insert-Holds k n nodes e = record {
  keyed = insert-Keyed k n nodes e;
  kept = λ id h. ground (arith, lookup-insert k id n nodes);
}

start_node-Holds :
    (spec : NodeSpec) (kind : NodeKind) (nodes : List (ℕ × Node))
    → Holds nodes (start_node spec kind nodes)
unfolding start_node restart new_node
start_node-Holds spec kind nodes = elim (Option-cases (lookup spec.id nodes)) [
  | inl e ↦ rw (e, start_node) (insert-Holds spec.id (new_node spec kind) nodes refl)
  | inr (n, e) ↦ rw (e, start_node) (update-Holds spec.id (restart spec) nodes (λ m. refl))
]

cancel-Keyed : (nodes : List (ℕ × Node)) → Keyed nodes → Keyed (map cancel_node nodes)
cancel-Keyed [] h = tt
cancel-Keyed ((j, n) ∷ nodes) h = ground (arith, cancel-Keyed nodes (h.1))

has_node-cancel :
    (id : ℕ) (nodes : List (ℕ × Node)) → has_node id (map cancel_node nodes) ≡ has_node id nodes
has_node-cancel id [] = refl
has_node-cancel id ((j, n) ∷ nodes) = ground (arith, has_node-cancel id nodes)

-- The nodes are kept under their identifiers, and the root and the selected node are among them.
pub record Sound {E : Type 0} (a : App E) : Type 0 where
  pub keyed : Keyed a.nodes
  pub rooted : has_node 0 a.nodes ≡ true
  pub selected : has_node a.selected_node a.nodes ≡ true

module _ {E : Type 0} where
  Holds-Sound :
      (a b : App E) → Sound a → Holds a.nodes b.nodes → b.selected_node ≡ a.selected_node → Sound b
  Holds-Sound a b s h e = record {
    keyed = h.keyed s.keyed;
    rooted = h.kept 0 s.rooted;
    selected = rw e (h.kept a.selected_node s.selected);
  }

  no_change :
      (a b : App E) → Sound a → b.nodes ≡ a.nodes → b.selected_node ≡ a.selected_node → Sound b
  no_change a b s n e = Holds-Sound a b s (rw n (record { keyed = λ h. h; kept = λ id h. h })) e

  pub apply-Sound : (e : UiEvent) (a : App E) → Sound a → Sound (apply e a)
  unfolding apply finish_node
  apply-Sound (UiEvent.agent_spawned spec) a s =
      Holds-Sound a _ s (start_node-Holds spec NodeKind.agent a.nodes) refl
  apply-Sound (UiEvent.repl_cell_started spec code) a s =
      Holds-Sound a _ s (start_node-Holds spec NodeKind.cell a.nodes) refl
  apply-Sound (UiEvent.llm_call spec) a s =
      Holds-Sound a _ s (start_node-Holds spec NodeKind.llm a.nodes) refl
  apply-Sound (UiEvent.agent_finished node status) a s =
      Holds-Sound a _ s (update-Holds node (with_status status) a.nodes (λ n. refl)) refl
  apply-Sound (UiEvent.llm_call_finished node status) a s =
      Holds-Sound a _ s (update-Holds node (with_status status) a.nodes (λ n. refl)) refl
  apply-Sound (UiEvent.repl_cell_finished node output status) a s =
      Holds-Sound a _ s (update-Holds node (with_status status) a.nodes (λ n. refl)) refl
  apply-Sound (UiEvent.text_delta node text) a s = no_change a _ s refl refl
  apply-Sound (UiEvent.tool_call_started node id name args) a s = no_change a _ s refl refl
  apply-Sound (UiEvent.tool_call_finished node id result status) a s = no_change a _ s refl refl
  apply-Sound (UiEvent.usage node tokens cost) a s =
      Holds-Sound a _ s (update-Holds node (with_usage tokens cost) a.nodes (λ n. refl)) refl
  apply-Sound (UiEvent.budget (some node) remaining) a s =
      Holds-Sound a _ s (update-Holds node (with_remaining remaining) a.nodes (λ n. refl)) refl
  apply-Sound (UiEvent.budget none remaining) a s = no_change a _ s refl refl

  pub cancel_running-Sound : (a : App E) → Sound a → Sound (cancel_running a)
  unfolding cancel_running
  cancel_running-Sound a s =
      Holds-Sound a (cancel_running a) s
        (record { keyed = cancel-Keyed a.nodes; kept = λ id h. rw (has_node-cancel id a.nodes) h })
        refl

  pub begin_turn-Sound : (prompt : Text) (a : App E) → Sound a → Sound (begin_turn prompt a)
  unfolding begin_turn finish_node
  begin_turn-Sound prompt a s =
      let h = update-Holds 0 (with_status Status.running) a.nodes (λ n. refl) in
      record { keyed = h.keyed s.keyed; rooted = h.kept 0 s.rooted; selected = h.kept 0 s.rooted }
