-- ===== src/Tui/Selecting.antt =====
-- crates/tui/src/app.rs, `handle_key`: the keys keep the interface sound, and so does any sequence of
-- events, keys and turns.
use kyora.Base.{
  ℕ, ◌≡◌, refl, Bool, true, false, some, Text, arith, get_elem?, count_pos, ◌==◌, ==_refl,
  Option-cases, inl, inr,
}
use package.kyora.Tui.Events.{UiEvent}
use package.kyora.Tui.App.{App}
use package.kyora.Tui.Applying.{
  new_node, start_node, finish_node, apply, new_app, cancel_running, begin_turn,
}
use package.kyora.Tui.Rows.{tree_rows}
use package.kyora.Tui.Keys.{
  KeyCode, KeyEvent, Editor, confirm, ask_quit, next_row, move_selection, browse, submit, pass,
  press, plain_key, handle_key,
}
use package.kyora.Tui.Visits.{has_node, tree_rows-once}
use package.kyora.Tui.Upkeep.{Sound, apply-Sound, cancel_running-Sound, begin_turn-Sound}

-- A change of the selection to a node, and of no node.
record Selects {E : Type 0} (a b : App E) : Type 0 where
  nodes : b.nodes ≡ a.nodes
  selected : has_node b.selected_node a.nodes ≡ true

module _ {E : Type 0} (a : App E) (s : Sound a) where
  row-has_node :
      (i id depth : ℕ) → get_elem? (tree_rows a) i ≡ some (id, depth) → has_node id a.nodes ≡ true
  row-has_node i id depth e =
      let found = count_pos (λ r. id == r.0) i (tree_rows a) (id, depth) e (==_refl id) in
      ground (arith, found, tree_rows-once a id s.keyed)

  move_selection-Selects : (is_up : Bool) → Selects a (move_selection is_up a)
  unfolding move_selection
  move_selection-Selects is_up =
      let i = next_row is_up a.selected_node (tree_rows a) in
      elim (Option-cases (get_elem? (tree_rows a) i)) [
        | inl e ↦ record { nodes = refl; selected = rw e (s.selected) }
        | inr ((id, depth), e) ↦ record {
          nodes = refl;
          selected = rw e (row-has_node i id depth e);
        }
      ]

  browse-Selects : (c : KeyCode) → Selects a (browse c a)
  unfolding browse
  browse-Selects KeyCode.up = ground (arith, move_selection-Selects true, s.selected)
  browse-Selects KeyCode.down = ground (arith, move_selection-Selects false, s.selected)
  browse-Selects KeyCode.enter = record { nodes = refl; selected = s.selected }
  browse-Selects (KeyCode.char c) = ground (arith, s.selected)
  browse-Selects KeyCode.page_up = record { nodes = refl; selected = s.selected }
  browse-Selects KeyCode.page_down = record { nodes = refl; selected = s.selected }
  browse-Selects KeyCode.end_key = record { nodes = refl; selected = s.selected }
  browse-Selects KeyCode.esc = record { nodes = refl; selected = s.selected }
  browse-Selects KeyCode.tab = record { nodes = refl; selected = s.selected }
  browse-Selects KeyCode.back_tab = record { nodes = refl; selected = s.selected }
  browse-Selects KeyCode.other = record { nodes = refl; selected = s.selected }

  module _ (editor : Editor E) where
    pass-Selects : (k : KeyEvent) → Selects a (pass editor k a)
    unfolding pass
    pass-Selects k = ground (arith, browse-Selects k.code, s.selected)

    press-Selects : (k : KeyEvent) (c : KeyCode) → Selects a (press editor k c a).1
    unfolding press submit
    press-Selects k KeyCode.tab = record { nodes = refl; selected = s.selected }
    press-Selects k KeyCode.back_tab = record { nodes = refl; selected = s.selected }
    press-Selects k KeyCode.esc = record { nodes = refl; selected = s.selected }
    press-Selects k KeyCode.enter = ground (arith, pass-Selects k, s.selected)
    press-Selects k (KeyCode.char c) = ground (arith, pass-Selects k, s.selected)
    press-Selects k KeyCode.up = pass-Selects k
    press-Selects k KeyCode.down = pass-Selects k
    press-Selects k KeyCode.page_up = pass-Selects k
    press-Selects k KeyCode.page_down = pass-Selects k
    press-Selects k KeyCode.end_key = pass-Selects k
    press-Selects k KeyCode.other = pass-Selects k

    plain_key-Selects : (k : KeyEvent) → Selects a (plain_key editor k a).1
    unfolding plain_key
    plain_key-Selects k = ground (arith, press-Selects k k.code, s.selected)

    confirm-Selects : (c : KeyCode) → Selects a (confirm c a).1
    unfolding confirm
    confirm-Selects KeyCode.enter = record { nodes = refl; selected = s.selected }
    confirm-Selects KeyCode.esc = record { nodes = refl; selected = s.selected }
    confirm-Selects (KeyCode.char c) = ground (arith, s.selected)
    confirm-Selects KeyCode.tab = record { nodes = refl; selected = s.selected }
    confirm-Selects KeyCode.back_tab = record { nodes = refl; selected = s.selected }
    confirm-Selects KeyCode.up = record { nodes = refl; selected = s.selected }
    confirm-Selects KeyCode.down = record { nodes = refl; selected = s.selected }
    confirm-Selects KeyCode.page_up = record { nodes = refl; selected = s.selected }
    confirm-Selects KeyCode.page_down = record { nodes = refl; selected = s.selected }
    confirm-Selects KeyCode.end_key = record { nodes = refl; selected = s.selected }
    confirm-Selects KeyCode.other = record { nodes = refl; selected = s.selected }

    handle_key-Selects : (k : KeyEvent) → Selects a (handle_key editor k a).1
    unfolding handle_key ask_quit
    handle_key-Selects k = ground (arith, plain_key-Selects k, confirm-Selects k.code, s.selected)

Selects-Sound : {E : Type 0} (a b : App E) → Sound a → Selects a b → Sound b
Selects-Sound a b s h = record {
  keyed = rw (h.nodes) (s.keyed);
  rooted = rw (h.nodes) (s.rooted);
  selected = rw (h.nodes) (h.selected);
}

module _ {E : Type 0} (editor : Editor E) where
  -- What the event loop does to the interface.
  pub data Step (a : App E) : App E → Type 0 where
    applied : (e : UiEvent) → Step a (apply e a)
    pressed : (k : KeyEvent) → Step a (handle_key editor k a).1
    cancelled : Step a (cancel_running a)
    began : (prompt : Text) → Step a (begin_turn prompt a)

  pub data Reach : App E → Type 0 where
    start : (no_color : Bool) → Reach (new_app editor.empty no_color)
    next : {a b : App E} → Reach a → Step a b → Reach b

  Step-Sound : (a b : App E) → Step a b → Sound a → Sound b
  Step-Sound a b (Step.applied e) s = apply-Sound e a s
  Step-Sound a b (Step.pressed k) s =
      Selects-Sound a (handle_key editor k a).1 s (handle_key-Selects a s editor k)
  Step-Sound a b Step.cancelled s = cancel_running-Sound a s
  Step-Sound a b (Step.began prompt) s = begin_turn-Sound prompt a s

  -- After any sequence of events, keys, cancellations and turns, every node is kept under its own
  -- identifier, and the root and the selected node are among the nodes.
  pub Reach-Sound : {a : App E} → Reach a → Sound a
  unfolding new_app start_node finish_node new_node
  Reach-Sound (Reach.start no_color) = record { keyed = (refl, tt); rooted = refl; selected = refl }
  Reach-Sound (Reach.next {a = a} {b = b} h step) = Step-Sound a b step (Reach-Sound h)
