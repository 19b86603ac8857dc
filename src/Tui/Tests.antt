-- ===== src/Tui/Tests.antt =====
-- crates/tui/src/app.rs: tests and examples. The editor holds one line of text.
use kyora.Base.{
  ℕ, suc, ◌+◌, ◌≡◌, refl, true, false, some, [], ◌∷◌, ◌++◌, Text, codes, length, if◌then◌else◌,
}
use package.kyora.Tui.Events.{NodeSpec, UiEvent}
use package.kyora.Tui.App.{App, active, totals}
use package.kyora.Tui.Applying.{apply, new_app, begin_turn, cancel_running}
use package.kyora.Tui.Rows.{rows_on, tree_rows}
use package.kyora.Tui.Keys.{KeyCode, KeyEvent, Editor, handle_key}
use package.kyora.Tui.Visits.{rows_of, has_node}
use package.kyora.Tui.Upkeep.{Sound}
use package.kyora.Tui.Selecting.{Step, Reach, Reach-Sound}
use package.kyora.Tui.Trees.{tree_rows_lem}
use package.kyora.Tui.Quitting.{Answers, handle_key_lem}

abbrev line_editor : Editor Text
line_editor = record {
  empty = [];
  insert_newline = λ t. t ++ 10 ∷ [];
  input = λ k t. t;
  lines = λ t. t ∷ [];
}

abbrev spec_of : ℕ → ℕ → NodeSpec
spec_of id parent = record {
  id = id;
  parent = some parent;
  name = codes "worker";
  model = codes "fake/worker";
}

abbrev key : KeyCode → KeyEvent
key code = record { code = code; control = false; shift = false; release = false }

unfoldable opened : App Text
opened = begin_turn (codes "go") (new_app [] false)

-- Nodes 1 and 2 name each other as parents; node 3 is a child of the root.
unfoldable grown : App Text
grown = apply (UiEvent.agent_spawned (spec_of 3 0)) (
    apply (UiEvent.agent_spawned (spec_of 2 1))
      (apply (UiEvent.agent_spawned (spec_of 1 2)) opened))

grown_rows : tree_rows grown ≡ (0, 0) ∷ (3, 1) ∷ (1, 0) ∷ (2, 1) ∷ []
unfolding grown opened begin_turn new_app apply tree_rows
grown_rows = refl

opened_runs : active opened ≡ true
unfolding opened begin_turn new_app active
opened_runs = refl

cancelled_rests : active (cancel_running opened) ≡ false
unfolding opened begin_turn new_app cancel_running active
cancelled_rests = refl

usage_replayed : totals (apply (UiEvent.usage 0 5 7) (apply (UiEvent.usage 0 5 7) opened)) ≡ (5, 7)
unfolding opened begin_turn new_app apply totals
usage_replayed = refl

grown_reached : Reach line_editor grown
unfolding grown opened
grown_reached =
    Reach.next
      (Reach.next
        (Reach.next (Reach.next (Reach.start false) (Step.began (codes "go")))
          (Step.applied (UiEvent.agent_spawned (spec_of 1 2))))
        (Step.applied (UiEvent.agent_spawned (spec_of 2 1))))
      (Step.applied (UiEvent.agent_spawned (spec_of 3 0)))

tree_rows_lem_example :
    ((id : ℕ) → rows_of id (tree_rows grown) ≡ (if has_node id grown.nodes then 1 else 0))
    × ((extra : ℕ) → rows_on (suc (length grown.nodes) + extra) grown.nodes ≡ tree_rows grown)
tree_rows_lem_example = tree_rows_lem line_editor {a = grown} grown_reached

Reach-Sound_example : Sound grown
Reach-Sound_example = Reach-Sound line_editor {a = grown} grown_reached

abbrev asked : App Text
asked = record grown { confirm_quit = true }

handle_key_lem_example :
    Answers line_editor false
      (KeyCode.char 121)
      asked
      (handle_key line_editor (key (KeyCode.char 121)) asked)
handle_key_lem_example = handle_key_lem line_editor asked (key (KeyCode.char 121))
