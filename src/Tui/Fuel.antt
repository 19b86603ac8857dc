-- ===== src/Tui/Fuel.antt =====
-- crates/tui/src/app.rs, `tree_rows`: the fuel of its loop is enough.
use kyora.Base.{
  ℕ, zero, suc, ◌+◌, ◌≤◌, ◌≡◌, refl, ap, Bool, false, not, none, some, List, [], ◌∷◌, ◌++◌, arith,
  contains, count, count-le-length, length, length-append, ◌==◌, Bool-cases, Option-cases, inl, inr,
}
use package.kyora.Tui.App.{Node, App}
use package.kyora.Tui.Rows.{
  children, Walk, walk, walk_all, roots, keys, unvisited, rows_on, tree_rows,
}
use package.kyora.Tui.Visits.{visit, walk_old, walk_fresh}

-- The nodes that a later visit of their parent will push.
abbrev waits : List ℕ → ℕ × Node → Bool
waits visited (k, n) = elim n.spec.parent [
  | none ↦ false
  | some parent ↦ not (contains parent visited)
]

children-count :
    (visited : List ℕ) (nodes : List (ℕ × Node)) (id depth : ℕ)
    → contains id visited ≡ false
    → count (waits visited) nodes
      ≡ count (waits (id ∷ visited)) nodes + length (children nodes id depth)
unfolding children
children-count visited [] id depth h = refl
children-count visited ((k, n) ∷ nodes) id depth h = elim (Option-cases n.spec.parent) [
  | inl e ↦ ground (arith, e, children-count visited nodes id depth h)
  | inr (parent, e) ↦ elim (Bool-cases (parent == id)) [
    | inl same ↦
        let q : parent ≡ id = ground (arith, same) in
        ground (arith, e, same, q, children-count visited nodes id depth h)
    | inr apart ↦ ground (arith, e, apart, children-count visited nodes id depth h)
  ]
]

walk_none : (nodes : List (ℕ × Node)) (fuel : ℕ) (w : Walk) → walk fuel nodes [] w ≡ w
unfolding walk
walk_none nodes zero w = refl
walk_none nodes (suc fuel) w = refl

-- A walk with enough fuel is not changed by more.
walk_enough :
    (nodes : List (ℕ × Node)) (fuel extra : ℕ) (stack : List (ℕ × ℕ)) (w : Walk)
    → length stack + count (waits w.visited) nodes ≤ fuel
    → walk (fuel + extra) nodes stack w ≡ walk fuel nodes stack w
unfolding walk
walk_enough nodes zero extra [] w h = walk_none nodes (0 + extra) w
walk_enough nodes zero extra (r ∷ stack) w h = absurd (omega arith)
walk_enough nodes (suc fuel) extra [] w h = walk_none nodes (suc fuel + extra) w
walk_enough nodes (suc fuel) extra ((id, depth) ∷ stack) w h =
    let one : suc fuel + extra ≡ suc (fuel + extra) = omega arith in
    rw one (elim (Bool-cases (contains id w.visited)) [
      | inl e ↦
          rw
            (
              walk_old nodes id depth fuel stack w e,
              walk_old nodes id depth (fuel + extra) stack w e,
            )
            (walk_enough nodes fuel extra stack w (omega arith))
      | inr e ↦
          let onto = children nodes id depth in
          let pushed = length-append onto stack in
          let fewer = children-count w.visited nodes id depth e in
          rw
            (
              walk_fresh nodes id depth fuel stack w e,
              walk_fresh nodes id depth (fuel + extra) stack w e,
            )
            (walk_enough nodes fuel extra (onto ++ stack) (visit id depth w) (omega arith))
    ])

walk_all_enough :
    (nodes : List (ℕ × Node)) (extra : ℕ) (from : List ℕ) (w : Walk)
    → walk_all (suc (length nodes) + extra) nodes from w
      ≡ walk_all (suc (length nodes)) nodes from w
unfolding walk_all
walk_all_enough nodes extra [] w = refl
walk_all_enough nodes extra (root ∷ from) w =
    let few = count-le-length (waits w.visited) nodes in
    rw (walk_enough nodes (suc (length nodes)) extra ((root, 0) ∷ []) w (omega arith))
      (walk_all_enough nodes extra from (walk (suc (length nodes)) nodes ((root, 0) ∷ []) w))

-- The rows of the tree are those of a walk with any more fuel.
pub tree_rows-enough :
    {E : Type 0} (a : App E) (extra : ℕ)
    → rows_on (suc (length a.nodes) + extra) a.nodes ≡ tree_rows a
unfolding tree_rows rows_on
tree_rows-enough a extra =
    ap (λ w. w.rows)
      (walk_all_enough a.nodes extra (roots a.nodes a.nodes ++ keys a.nodes) unvisited)
