-- ===== src/Tui/Visits.antt =====
-- crates/tui/src/app.rs, `tree_rows`: every node has one row and no other has one.
use kyora.Base.{
  ℕ, zero, suc, ◌≡◌, refl, Bool, true, false, List, [], ◌∷◌, ◌++◌, map, arith, contains, count,
  count-append, length, ◌==◌, ==_refl, Bool-cases, inl, inr, if◌then◌else◌,
}
use kyora.Base.Maps.{lookup}
use kyora.Provider.Retry.{is_some}
use package.kyora.Tui.App.{Node, App}
use package.kyora.Tui.Rows.{
  children, Walk, next, walk, walk_all, roots, keys, unvisited, rows_on, tree_rows,
}

-- Every node is kept under its identifier.
abbrev pub Keyed : List (ℕ × Node) → Type 0
Keyed [] = Unit {0}
Keyed ((k, n) ∷ nodes) = (n.spec.id ≡ k) × Keyed nodes

-- How many rows a node has.
abbrev pub rows_of : ℕ → List (ℕ × ℕ) → ℕ
rows_of id rows = count (λ r. id == r.0) rows

abbrev pub has_node : ℕ → List (ℕ × Node) → Bool
has_node id nodes = is_some (lookup id nodes)

abbrev AllKnown : List (ℕ × Node) → List ℕ → Type 0
AllKnown nodes [] = Unit {0}
AllKnown nodes (id ∷ ids) = (has_node id nodes ≡ true) × AllKnown nodes ids

abbrev ids : List (ℕ × ℕ) → List ℕ
ids rows = map (λ r. r.0) rows

append-AllKnown :
    (nodes : List (ℕ × Node)) (xs ys : List ℕ)
    → AllKnown nodes xs
    → AllKnown nodes ys
    → AllKnown nodes (xs ++ ys)
append-AllKnown nodes [] ys p q = q
append-AllKnown nodes (x ∷ xs) ys p q = (p.0, append-AllKnown nodes xs ys (p.1) q)

ids_append : (xs ys : List (ℕ × ℕ)) → ids (xs ++ ys) ≡ ids xs ++ ids ys
ids_append [] ys = refl
ids_append (x ∷ xs) ys = rw (ids_append xs ys)

-- A part of a map whose keys are in the map.
abbrev Within : List (ℕ × Node) → List (ℕ × Node) → Type 0
Within nodes part = AllKnown nodes (keys part)

children-AllKnown :
    (nodes part : List (ℕ × Node)) (id depth : ℕ)
    → Keyed part
    → Within nodes part
    → AllKnown nodes (ids (children part id depth))
unfolding children
children-AllKnown nodes [] id depth k w = tt
children-AllKnown nodes ((j, n) ∷ part) id depth k w =
    ground (arith, children-AllKnown nodes part id depth (k.1) (w.1))

roots-AllKnown :
    (all nodes part : List (ℕ × Node))
    → Keyed part
    → Within nodes part
    → AllKnown nodes (roots all part)
unfolding roots
roots-AllKnown all nodes [] k w = tt
roots-AllKnown all nodes ((j, n) ∷ part) k w =
    ground (arith, roots-AllKnown all nodes part (k.1) (w.1))

more_known :
    (j : ℕ) (n : Node) (nodes : List (ℕ × Node)) (xs : List ℕ)
    → AllKnown nodes xs
    → AllKnown ((j, n) ∷ nodes) xs
more_known j n nodes [] p = tt
more_known j n nodes (x ∷ xs) p = (ground (arith, p.0), more_known j n nodes xs (p.1))

Within-refl : (nodes : List (ℕ × Node)) → Within nodes nodes
Within-refl [] = tt
Within-refl ((j, n) ∷ nodes) =
    (ground (arith, ==_refl j), more_known j n nodes (keys nodes) (Within-refl nodes))

keys-contains :
    (id : ℕ) (nodes : List (ℕ × Node)) → has_node id nodes ≡ true → contains id (keys nodes) ≡ true
keys-contains id [] h = cc
keys-contains id ((j, n) ∷ nodes) h = ground (arith, keys-contains id nodes)

contains_right : (id : ℕ) (xs ys : List ℕ) → contains id ys ≡ true → contains id (xs ++ ys) ≡ true
contains_right id [] ys h = h
contains_right id (x ∷ xs) ys h = ground (arith, contains_right id xs ys h)

abbrev pub visit : ℕ → ℕ → Walk → Walk
visit id depth w = record { visited = id ∷ w.visited; rows = w.rows ++ (id, depth) ∷ [] }

pub walk_old :
    (nodes : List (ℕ × Node)) (id depth fuel : ℕ) (stack : List (ℕ × ℕ)) (w : Walk)
    → contains id w.visited ≡ true
    → walk (suc fuel) nodes ((id, depth) ∷ stack) w ≡ walk fuel nodes stack w
unfolding walk next
walk_old nodes id depth fuel stack w e = rw e refl

pub walk_fresh :
    (nodes : List (ℕ × Node)) (id depth fuel : ℕ) (stack : List (ℕ × ℕ)) (w : Walk)
    → contains id w.visited ≡ false
    → walk (suc fuel) nodes ((id, depth) ∷ stack) w
      ≡ walk fuel nodes (children nodes id depth ++ stack) (visit id depth w)
unfolding walk next
walk_fresh nodes id depth fuel stack w e = rw e refl

-- What every walk keeps: a node that was visited has one row and is in the map, and no other has one.
record Kept (nodes : List (ℕ × Node)) (w : Walk) : Type 0 where
  once : (id : ℕ) → rows_of id w.rows ≡ (if contains id w.visited then 1 else 0)
  known : (id : ℕ) → contains id w.visited ≡ true → has_node id nodes ≡ true

module _ (nodes : List (ℕ × Node)) (keyed : Keyed nodes) where
  visit-Kept :
      (id depth : ℕ) (w : Walk)
      → has_node id nodes ≡ true
      → contains id w.visited ≡ false
      → Kept nodes w
      → Kept nodes (visit id depth w)
  visit-Kept id depth w h fresh k = record {
    once = λ j. ground (arith, k.once j, count-append (λ r. j == r.0) w.rows ((id, depth) ∷ []));
    known = λ j e. ground (arith, k.known j);
  }

  walk-Kept :
      (fuel : ℕ) (stack : List (ℕ × ℕ)) (w : Walk)
      → AllKnown nodes (ids stack)
      → Kept nodes w
      → Kept nodes (walk fuel nodes stack w)
  unfolding walk next
  walk-Kept zero stack w a k = k
  walk-Kept (suc fuel) [] w a k = k
  walk-Kept (suc fuel) ((id, depth) ∷ stack) w a k = elim (Bool-cases (contains id w.visited)) [
    | inl e ↦ rw (walk_old nodes id depth fuel stack w e) (walk-Kept fuel stack w (a.1) k)
    | inr e ↦ rw (walk_fresh nodes id depth fuel stack w e) (
        let onto = children nodes id depth in
        let pushed : AllKnown nodes (ids (onto ++ stack)) = rw (ids_append onto stack) (
          append-AllKnown nodes (ids onto) (ids stack)
            (children-AllKnown nodes nodes id depth keyed (Within-refl nodes)) (a.1)) in
        walk-Kept fuel (onto ++ stack) (visit id depth w) pushed (visit-Kept id depth w (a.0) e k))
  ]

  walk_all-Kept :
      (fuel : ℕ) (from : List ℕ) (w : Walk)
      → AllKnown nodes from
      → Kept nodes w
      → Kept nodes (walk_all fuel nodes from w)
  unfolding walk_all
  walk_all-Kept fuel [] w a k = k
  walk_all-Kept fuel (root ∷ from) w a k =
      walk_all-Kept fuel from (walk fuel nodes ((root, 0) ∷ []) w) (a.1)
        (walk-Kept fuel ((root, 0) ∷ []) w (a.0, tt) k)

-- What was visited stays so.
walk_keeps :
    (nodes : List (ℕ × Node)) (id fuel : ℕ) (stack : List (ℕ × ℕ)) (w : Walk)
    → contains id w.visited ≡ true
    → contains id (walk fuel nodes stack w).visited ≡ true
unfolding walk next
walk_keeps nodes id zero stack w h = h
walk_keeps nodes id (suc fuel) [] w h = h
walk_keeps nodes id (suc fuel) ((j, depth) ∷ stack) w h = elim (Bool-cases (contains j w.visited)) [
  | inl e ↦ rw (walk_old nodes j depth fuel stack w e) (walk_keeps nodes id fuel stack w h)
  | inr e ↦ rw (walk_fresh nodes j depth fuel stack w e) (
      walk_keeps nodes id fuel (children nodes j depth ++ stack) (visit j depth w)
        (ground (arith, h)))
]

walk_visits :
    (nodes : List (ℕ × Node)) (id fuel : ℕ) (w : Walk)
    → contains id (walk (suc fuel) nodes ((id, 0) ∷ []) w).visited ≡ true
unfolding walk next
walk_visits nodes id fuel w = elim (Bool-cases (contains id w.visited)) [
  | inl e ↦ rw (walk_old nodes id 0 fuel [] w e) (walk_keeps nodes id fuel [] w e)
  | inr e ↦ rw (walk_fresh nodes id 0 fuel [] w e) (
      walk_keeps nodes id fuel (children nodes id 0 ++ []) (visit id 0 w)
        (ground (arith, ==_refl id)))
]

walk_all_keeps :
    (nodes : List (ℕ × Node)) (id fuel : ℕ) (from : List ℕ) (w : Walk)
    → contains id w.visited ≡ true
    → contains id (walk_all fuel nodes from w).visited ≡ true
unfolding walk_all
walk_all_keeps nodes id fuel [] w h = h
walk_all_keeps nodes id fuel (root ∷ from) w h =
    walk_all_keeps nodes id fuel from (walk fuel nodes ((root, 0) ∷ []) w)
      (walk_keeps nodes id fuel ((root, 0) ∷ []) w h)

walk_all_visits :
    (nodes : List (ℕ × Node)) (id fuel : ℕ) (from : List ℕ) (w : Walk)
    → contains id from ≡ true
    → contains id (walk_all (suc fuel) nodes from w).visited ≡ true
unfolding walk_all
walk_all_visits nodes id fuel [] w h = cc
walk_all_visits nodes id fuel (root ∷ from) w h =
    let onto = walk (suc fuel) nodes ((root, 0) ∷ []) w in
    elim (Bool-cases (id == root)) [
      | inl e ↦
          let same : id ≡ root = ground (arith, e) in
          walk_all_keeps nodes id (suc fuel) from onto (rw same (walk_visits nodes root fuel w))
      | inr e ↦ walk_all_visits nodes id fuel from onto (ground (arith, h, e))
    ]

-- Every node that is kept under its identifier has one row in the tree, and there are no other rows.
pub tree_rows-once :
    {E : Type 0} (a : App E) (id : ℕ)
    → Keyed a.nodes
    → rows_of id (tree_rows a) ≡ (if has_node id a.nodes then 1 else 0)
unfolding tree_rows rows_on
tree_rows-once a id keyed =
    let from = roots a.nodes a.nodes ++ keys a.nodes in
    let fuel = length a.nodes in
    let within = Within-refl a.nodes in
    let start : Kept a.nodes unvisited = record { once = λ j. refl; known = λ j e. cc } in
    let k =
      walk_all-Kept a.nodes keyed (suc fuel) from unvisited
        (append-AllKnown a.nodes (roots a.nodes a.nodes) (keys a.nodes)
          (roots-AllKnown a.nodes a.nodes a.nodes keyed within) within)
        start in
    let reached = λ (h : has_node id a.nodes ≡ true).
      walk_all_visits a.nodes id fuel from unvisited
        (contains_right id (roots a.nodes a.nodes) (keys a.nodes) (keys-contains id a.nodes h)) in
    ground (arith, k.once id, k.known id, reached)
