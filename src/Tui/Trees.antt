-- ===== src/Tui/Trees.antt =====
-- crates/tui/src/app.rs, `tree_rows` in every state that the event loop reaches.
use kyora.Base.{ℕ, suc, ◌+◌, ◌≡◌, length, if◌then◌else◌}
use package.kyora.Tui.App.{App}
use package.kyora.Tui.Rows.{rows_on, tree_rows}
use package.kyora.Tui.Keys.{Editor}
use package.kyora.Tui.Visits.{rows_of, has_node, tree_rows-once}
use package.kyora.Tui.Fuel.{tree_rows-enough}
use package.kyora.Tui.Selecting.{Reach, Reach-Sound}

-- After any sequence of events, keys, cancellations and turns, and however the parents are nested,
-- the tree shows one row for every node and no other row; and the walk has ended, since any more fuel
-- gives the same rows.
pub tree_rows_lem :
    {E : Type 0} (editor : Editor E) {a : App E}
    → Reach editor a
    → ((id : ℕ) → rows_of id (tree_rows a) ≡ (if has_node id a.nodes then 1 else 0))
      × ((extra : ℕ) → rows_on (suc (length a.nodes) + extra) a.nodes ≡ tree_rows a)
tree_rows_lem editor {a} h =
    (λ id. tree_rows-once a id ((Reach-Sound editor h).keyed), λ extra. tree_rows-enough a extra)
