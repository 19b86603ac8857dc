-- ===== src/Tui/Rows.antt =====
-- crates/tui/src/app.rs, `tree_rows`: the rows of the recursion tree.
use kyora.Base.{
  ℕ, zero, suc, Bool, true, false, not, Option, none, some, List, [], ◌∷◌, ◌++◌, contains, length,
  ◌==◌, if◌then◌else◌,
}
use kyora.Base.Words.{add64}
use kyora.Base.Maps.{lookup}
use kyora.Provider.Retry.{is_some}
use package.kyora.Tui.App.{Node, App}

-- Whether a node's parent is the given one.
abbrev pub has_parent : ℕ → Option ℕ → Bool
has_parent id none = false
has_parent id (some parent) = parent == id

-- The children of a node with their depth; the first of them ends on top of the stack.
unfoldable pub children : List (ℕ × Node) → ℕ → ℕ → List (ℕ × ℕ)
unfolding add64
children [] id depth = []
children ((k, n) ∷ nodes) id depth =
    let rest = children nodes id depth in
    if has_parent id n.spec.parent then (n.spec.id, add64 depth 1) ∷ rest else rest

-- The nodes that the loop has visited, and their rows.
pub record Walk : Type 0 where
  pub visited : List ℕ
  pub rows : List (ℕ × ℕ)

-- What follows the pop of a row: the stack and the walk.
unfoldable pub next : List (ℕ × Node) → ℕ → ℕ → List (ℕ × ℕ) → Walk → List (ℕ × ℕ) × Walk
unfolding children
next nodes id depth stack w = if contains id w.visited then (stack, w) else (
  children nodes id depth ++ stack,
  record { visited = id ∷ w.visited; rows = w.rows ++ (id, depth) ∷ [] },
)

-- The inner loop, on fuel; the top of the stack comes first.
unfoldable pub walk : ℕ → List (ℕ × Node) → List (ℕ × ℕ) → Walk → Walk
unfolding next
walk zero nodes stack w = w
walk (suc fuel) nodes [] w = w
walk (suc fuel) nodes ((id, depth) ∷ stack) w =
    let follows = next nodes id depth stack w in walk fuel nodes (follows.0) (follows.1)

-- The outer loop.
unfoldable pub walk_all : ℕ → List (ℕ × Node) → List ℕ → Walk → Walk
unfolding walk
walk_all fuel nodes [] w = w
walk_all fuel nodes (root ∷ roots) w =
    walk_all fuel nodes roots (walk fuel nodes ((root, 0) ∷ []) w)

abbrev pub is_root : List (ℕ × Node) → Option ℕ → Bool
is_root nodes none = true
is_root nodes (some parent) = not (is_some (lookup parent nodes))

-- The nodes without an admitted parent.
unfoldable pub roots : List (ℕ × Node) → List (ℕ × Node) → List ℕ
roots nodes [] = []
roots nodes ((k, n) ∷ more) =
    if is_root nodes n.spec.parent then n.spec.id ∷ roots nodes more else roots nodes more

abbrev pub keys : List (ℕ × Node) → List ℕ
keys [] = []
keys ((k, n) ∷ nodes) = k ∷ keys nodes

abbrev pub unvisited : Walk
unvisited = record { visited = []; rows = [] }

-- `App::tree_rows` with some fuel.
unfoldable pub rows_on : ℕ → List (ℕ × Node) → List (ℕ × ℕ)
unfolding walk_all roots
rows_on fuel nodes = (walk_all fuel nodes (roots nodes nodes ++ keys nodes) unvisited).rows

-- `App::tree_rows`
unfoldable pub tree_rows : {E : Type 0} → App E → List (ℕ × ℕ)
unfolding rows_on
tree_rows a = rows_on (suc (length a.nodes)) a.nodes
