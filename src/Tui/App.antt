-- ===== src/Tui/App.antt =====
-- crates/tui/src/app.rs: the state of the interface. The editor of tui_textarea is the type `E`.
use kyora.Base.{ℕ, Bool, Option, List, [], ◌∷◌, Text, any, if◌then◌else◌}
use kyora.Base.Words.{saturating_add64}
use package.kyora.Tui.Events.{Status, NodeKind, NodeSpec, is_running, is_cell}

pub record Node : Type 0 where
  pub spec : NodeSpec
  pub kind : NodeKind
  pub status : Status
  pub tokens : ℕ
  pub cost_microusd : ℕ
  pub remaining : Option ℕ

pub record ToolEntry : Type 0 where
  pub node : ℕ
  pub id : Text
  pub name : Text
  pub args : Text
  pub result : Option Text
  pub status : Status
  pub expanded : Bool

pub data Entry : Type 0 where
  user assistant : ℕ → Text → Entry
  tool : ToolEntry → Entry

-- `Entry::node`
unfoldable pub owner : Entry → ℕ
owner (Entry.user node text) = node
owner (Entry.assistant node text) = node
owner (Entry.tool t) = t.node

pub data Focus : Type 0 where
  input conversation tree : Focus

pub data Action : Type 0 where
  nothing : Action
  submit : Text → Action
  cancel quit : Action

pub record App (E : Type 0) : Type 0 where
  pub nodes : List (ℕ × Node)
  pub entries : List Entry
  pub input : E
  pub focus : Focus
  pub selected_node : ℕ
  pub selected_tool : ℕ
  pub scroll_back : ℕ
  pub remaining : ℕ
  pub help : Bool
  pub confirm_quit : Bool
  pub notice : Text
  pub no_color : Bool

abbrev pub runs : ℕ × Node → Bool
runs (k, n) = is_running n.status

-- `App::active`
unfoldable pub active : {E : Type 0} → App E → Bool
active a = any runs a.nodes

-- The fold of `totals`.
unfoldable pub totals_of : List (ℕ × Node) → ℕ × ℕ → ℕ × ℕ
unfolding saturating_add64
totals_of [] total = total
totals_of ((k, n) ∷ nodes) (tokens, cost) = totals_of nodes (
    if is_cell n.kind
    then (tokens, cost)
    else (saturating_add64 tokens n.tokens, saturating_add64 cost n.cost_microusd))

-- `App::totals`
unfoldable pub totals : {E : Type 0} → App E → ℕ × ℕ
unfolding totals_of
totals a = totals_of a.nodes (0, 0)
