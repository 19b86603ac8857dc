-- ===== src/Tui/Applying.antt =====
-- crates/tui/src/app.rs, `new`, `apply`, `cancel_running` and `begin_turn`: what changes the nodes and
-- the transcript.
use kyora.Base.{
  ℕ, Bool, false, ◌&&◌, Option, none, some, List, [], ◌∷◌, ◌++◌, map, Text, codes, text_eq, any,
  ◌==◌, if◌then◌else◌,
}
use kyora.Base.Maps.{lookup, insert, update}
use package.kyora.Tui.Events.{Status, NodeKind, NodeSpec, UiEvent, is_running}
use package.kyora.Tui.App.{Node, Entry, owner, Focus, App}

-- `iter().rev().find(p)`
unfoldable pub find_last : {A : Type 0} → (A → Bool) → List A → Option A
find_last p [] = none
find_last p (x ∷ xs) = elim (find_last p xs) [
  | some y ↦ some y
  | none ↦ if p x then some x else none
]

-- `iter_mut().rev().find(p)` followed by a write.
unfoldable pub modify_last : {A : Type 0} → (A → Bool) → (A → A) → List A → List A
modify_last p f [] = []
modify_last p f (x ∷ xs) =
    if any p xs then x ∷ modify_last p f xs else if p x then f x ∷ xs else x ∷ xs

unfoldable pub new_node : NodeSpec → NodeKind → Node
new_node spec kind = record {
  spec = spec;
  kind = kind;
  status = Status.running;
  tokens = 0;
  cost_microusd = 0;
  remaining = none;
}

-- Another turn of a node keeps its place in the tree.
unfoldable pub restart : NodeSpec → Node → Node
restart spec n = record n {
  status = Status.running;
  spec = record n.spec { name = spec.name; model = spec.model };
}

-- `App::start_node`
unfoldable pub start_node : NodeSpec → NodeKind → List (ℕ × Node) → List (ℕ × Node)
unfolding new_node restart
start_node spec kind nodes = elim (lookup spec.id nodes) [
  | some n ↦ update spec.id (restart spec) nodes
  | none ↦ insert spec.id (new_node spec kind) nodes
]

abbrev pub with_status : Status → Node → Node
with_status status n = record n { status = status }

-- `App::finish_node`
unfoldable pub finish_node : ℕ → Status → List (ℕ × Node) → List (ℕ × Node)
finish_node id status nodes = update id (with_status status) nodes

abbrev pub append_text : Text → Entry → Entry
append_text text (Entry.assistant node existing) = Entry.assistant node (existing ++ text)
append_text text e = e

-- A delta joins the latest entry of its node, if that is the assistant's.
unfoldable pub add_delta : ℕ → Text → List Entry → List Entry
unfolding find_last modify_last owner
add_delta node text entries = elim (find_last (λ e. owner e == node) entries) [
  | some (Entry.assistant _ _) ↦ modify_last (λ e. owner e == node) (append_text text) entries
  | _ ↦ entries ++ Entry.assistant node text ∷ []
]

abbrev pub is_call : ℕ → Text → Entry → Bool
is_call node id (Entry.tool t) = t.node == node && text_eq t.id id
is_call node id _ = false

abbrev pub finish_tool : Text → Status → Entry → Entry
finish_tool result status (Entry.tool t) =
    Entry.tool (record t { result = some result; status = status })
finish_tool result status e = e

abbrev pub with_usage : ℕ → ℕ → Node → Node
with_usage tokens cost n = record n { tokens = tokens; cost_microusd = cost }

abbrev pub with_remaining : ℕ → Node → Node
with_remaining remaining n = record n { remaining = some remaining }

-- `App::apply`
unfoldable pub apply : {E : Type 0} → UiEvent → App E → App E
unfolding start_node finish_node add_delta modify_last text_eq
apply (UiEvent.agent_spawned spec) a = record a { nodes = start_node spec NodeKind.agent a.nodes }
apply (UiEvent.repl_cell_started spec code) a = record a {
  nodes = start_node spec NodeKind.cell a.nodes;
  entries = a.entries ++ Entry.user spec.id code ∷ [];
}
apply (UiEvent.llm_call spec) a = record a { nodes = start_node spec NodeKind.llm a.nodes }
apply (UiEvent.agent_finished node status) a = record a { nodes = finish_node node status a.nodes }
apply (UiEvent.llm_call_finished node status) a = record a {
  nodes = finish_node node status a.nodes;
}
apply (UiEvent.repl_cell_finished node output status) a = record a {
  nodes = finish_node node status a.nodes;
  entries = a.entries ++ Entry.assistant node output ∷ [];
}
apply (UiEvent.text_delta node text) a = record a { entries = add_delta node text a.entries }
apply (UiEvent.tool_call_started node id name args) a = record a {
  entries =
      a.entries
      ++ Entry.tool (record {
        node = node;
        id = id;
        name = name;
        args = args;
        result = none;
        status = Status.running;
        expanded = false;
      })
        ∷ [];
}
apply (UiEvent.tool_call_finished node id result status) a = record a {
  entries = modify_last (is_call node id) (finish_tool result status) a.entries;
}
apply (UiEvent.usage node tokens cost) a = record a {
  nodes = update node (with_usage tokens cost) a.nodes;
}
apply (UiEvent.budget (some node) remaining) a = record a {
  nodes = update node (with_remaining remaining) a.nodes;
}
apply (UiEvent.budget none remaining) a = record a { remaining = remaining }

-- `App::new`, with an empty editor.
unfoldable pub new_app : {E : Type 0} → E → Bool → App E
unfolding start_node finish_node
new_app editor no_color = record {
  nodes = finish_node 0 Status.idle (
      start_node (record { id = 0; parent = none; name = codes "root"; model = codes "fake/root" })
        NodeKind.agent []);
  entries = [];
  input = editor;
  focus = Focus.input;
  selected_node = 0;
  selected_tool = 0;
  scroll_back = 0;
  remaining = 20_000;
  help = false;
  confirm_quit = false;
  notice = codes "Offline prototype. Send a prompt to play the scripted run.";
  no_color = no_color;
}

abbrev pub cancel_node : ℕ × Node → ℕ × Node
cancel_node (k, n) = (k, if is_running n.status then with_status Status.cancelled n else n)

abbrev pub cancel_entry : Entry → Entry
cancel_entry (Entry.tool t) =
    if is_running t.status
    then Entry.tool
        (record t { status = Status.cancelled; result = some (codes "Cancelled by user.") })
    else Entry.tool t
cancel_entry e = e

-- `App::cancel_running`
unfoldable pub cancel_running : {E : Type 0} → App E → App E
cancel_running a = record a {
  nodes = map cancel_node a.nodes;
  entries = map cancel_entry a.entries;
  notice = codes "Turn cancelled. Send another prompt to replay.";
}

-- `App::begin_turn`
unfoldable pub begin_turn : {E : Type 0} → Text → App E → App E
unfolding finish_node
begin_turn prompt a = record a {
  entries = a.entries ++ Entry.user 0 prompt ∷ [];
  nodes = finish_node 0 Status.running a.nodes;
  selected_node = 0;
  scroll_back = 0;
  notice = codes "Scripted run in progress.";
}
