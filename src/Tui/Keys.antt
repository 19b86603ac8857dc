-- ===== src/Tui/Keys.antt =====
-- crates/tui/src/app.rs, `handle_key`. A key is what crossterm reports, with the codes that the
-- interface does not know as `other`; tui_textarea is a record of its operations.
use kyora.Base.{
  ℕ, zero, suc, ◌+◌, ◌-◌, min, Bool, true, false, not, ◌&&◌, ◌||◌, Option, none, some, List, [],
  ◌∷◌, ◌++◌, Text, codes, count, get_elem?, length, ◌==◌, if◌then◌else◌, is_whitespace,
}
use package.kyora.Tui.App.{Entry, Focus, Action, App, active}
use package.kyora.Tui.Rows.{tree_rows}

pub data KeyCode : Type 0 where
  char : ℕ → KeyCode
  enter esc tab back_tab up down page_up page_down end_key other : KeyCode

pub record KeyEvent : Type 0 where
  pub code : KeyCode
  pub control : Bool
  pub shift : Bool
  pub release : Bool

pub record Editor (E : Type 0) : Type 0 where
  pub empty : E
  pub insert_newline : E → E
  pub input : KeyEvent → E → E
  pub lines : E → List Text

abbrev pub is_char : ℕ → KeyCode → Bool
is_char c (KeyCode.char d) = d == c
is_char c _ = false

abbrev pub is_esc : KeyCode → Bool
is_esc KeyCode.esc = true
is_esc _ = false

abbrev pub is_input : Focus → Bool
is_input Focus.input = true
is_input _ = false

abbrev pub is_tree : Focus → Bool
is_tree Focus.tree = true
is_tree _ = false

-- `text.trim().is_empty()`
unfoldable pub is_blank : Text → Bool
unfolding is_whitespace
is_blank [] = true
is_blank (c ∷ text) = is_whitespace c && is_blank text

-- `lines.join("\n")`
unfoldable pub join_lines : List Text → Text
join_lines [] = []
join_lines (line ∷ []) = line
join_lines (line ∷ more ∷ lines) = line ++ (10 ∷ join_lines (more ∷ lines))

-- The first row of a node.
unfoldable pub position : ℕ → List (ℕ × ℕ) → Option ℕ
position id [] = none
position id ((k, depth) ∷ rows) = elim (position id rows) [
  | some n ↦ if k == id then some 0 else some (suc n)
  | none ↦ if k == id then some 0 else none
]

abbrev pub or_zero : Option ℕ → ℕ
or_zero none = 0
or_zero (some n) = n

abbrev pub is_tool_of : ℕ → Entry → Bool
is_tool_of node (Entry.tool t) = t.node == node
is_tool_of node _ = false

abbrev pub toggle : Entry → Entry
toggle (Entry.tool t) = Entry.tool (record t { expanded = not t.expanded })
toggle e = e

-- `iter_mut().filter(p).nth(n)` followed by a write.
unfoldable pub modify_nth : {A : Type 0} → (A → Bool) → (A → A) → ℕ → List A → List A
modify_nth p f n [] = []
modify_nth p f zero (x ∷ xs) =
    let rest = modify_nth p f zero xs in if p x then f x ∷ xs else x ∷ rest
modify_nth p f (suc n) (x ∷ xs) = x ∷ modify_nth p f (if p x then n else suc n) xs

unfoldable pub next_focus : Focus → Bool → Focus
next_focus Focus.input false = Focus.conversation
next_focus Focus.tree true = Focus.conversation
next_focus Focus.conversation false = Focus.tree
next_focus Focus.input true = Focus.tree
next_focus _ _ = Focus.input

-- The row that a step up or down the tree leads to.
unfoldable pub next_row : Bool → ℕ → List (ℕ × ℕ) → ℕ
unfolding position
next_row is_up selected rows =
    let current = or_zero (position selected rows) in
    if is_up then current - 1 else min (current + 1) (length rows - 1)

-- The node of a row, if there is one.
abbrev pub node_at : Option (ℕ × ℕ) → ℕ → ℕ
node_at none selected = selected
node_at (some (id, depth)) selected = id

module _ {E : Type 0} where
  -- A key while a quit awaits its confirmation.
  unfoldable pub confirm : KeyCode → App E → Action × App E
  confirm KeyCode.enter a = (Action.quit, a)
  confirm KeyCode.esc a = (Action.nothing, record a { confirm_quit = false })
  confirm (KeyCode.char c) a =
      if c == 121 || c == 89
      then (Action.quit, a)
      else if c == 110 || c == 78
      then (Action.nothing, record a { confirm_quit = false })
      else (Action.nothing, a)
  confirm _ a = (Action.nothing, a)

  unfoldable pub ask_quit : App E → Action × App E
  unfolding active
  ask_quit a =
      if active a then (Action.nothing, record a { confirm_quit = true }) else (Action.quit, a)

  unfoldable pub move_selection : Bool → App E → App E
  unfolding tree_rows next_row
  move_selection is_up a =
      let rows = tree_rows a in
      record a {
        selected_node =
            node_at (get_elem? rows (next_row is_up a.selected_node rows)) a.selected_node;
        selected_tool = 0;
        scroll_back = 0;
      }

  -- A key outside the editor.
  unfoldable pub browse : KeyCode → App E → App E
  unfolding move_selection modify_nth
  browse KeyCode.up a =
      if is_tree a.focus
      then move_selection true a
      else record a { selected_tool = a.selected_tool - 1 }
  browse KeyCode.down a = if is_tree a.focus then move_selection false a else record a {
    selected_tool = min (a.selected_tool + 1) (count (is_tool_of a.selected_node) a.entries - 1);
  }
  browse KeyCode.enter a = record a {
    entries = modify_nth (is_tool_of a.selected_node) toggle a.selected_tool a.entries;
  }
  browse (KeyCode.char c) a =
      if c == 32
      then record a {
        entries = modify_nth (is_tool_of a.selected_node) toggle a.selected_tool a.entries;
      }
      else a
  browse KeyCode.page_up a = record a { scroll_back = min (a.scroll_back + 8) 65_535 }
  browse KeyCode.page_down a = record a { scroll_back = a.scroll_back - 8 }
  browse KeyCode.end_key a = record a { scroll_back = 0 }
  browse _ a = a

  module _ (editor : Editor E) where
    -- Enter in the editor.
    unfoldable pub submit : App E → Action × App E
    unfolding join_lines is_blank active
    submit a =
        let text = join_lines (editor.lines a.input) in
        if not (is_blank text) && not (active a)
        then (Action.submit text, record a { input = editor.empty })
        else if active a
        then (Action.nothing, record a { notice = codes "A turn is active. Esc cancels it." })
        else (Action.nothing, a)

    unfoldable pub pass : KeyEvent → App E → App E
    unfolding browse
    pass k a =
        if is_input a.focus then record a { input = editor.input k a.input } else browse k.code a

    -- The last `match` on the code.
    unfoldable pub press : KeyEvent → KeyCode → App E → Action × App E
    unfolding next_focus submit pass
    press k KeyCode.tab a = (Action.nothing, record a { focus = next_focus a.focus false })
    press k KeyCode.back_tab a = (Action.nothing, record a { focus = next_focus a.focus true })
    press k KeyCode.esc a = (Action.cancel, a)
    press k KeyCode.enter a =
        if is_input a.focus && not k.shift then submit a else (Action.nothing, pass k a)
    press k (KeyCode.char c) a =
        if c == 106 && (k.control && is_input a.focus)
        then (Action.nothing, record a { input = editor.insert_newline a.input })
        else (Action.nothing, pass k a)
    press k _ a = (Action.nothing, pass k a)

    -- Without a dialog that takes the key.
    unfoldable pub plain_key : KeyEvent → App E → Action × App E
    unfolding press
    plain_key k a =
        if is_char 63 k.code && (not (is_input a.focus) || a.help)
        then (Action.nothing, record a { help = not a.help })
        else if a.help
        then (Action.nothing, if is_esc k.code then record a { help = false } else a)
        else press k k.code a

    -- `App::handle_key`
    unfoldable pub handle_key : KeyEvent → App E → Action × App E
    unfolding confirm ask_quit plain_key
    handle_key k a =
        if k.release
        then (Action.nothing, a)
        else if a.confirm_quit
        then confirm k.code a
        else if k.control && is_char 99 k.code
            || is_char 113 k.code && (not (is_input a.focus) && not a.help)
        then ask_quit a
        else plain_key k a
