-- ===== src/Ledger/Ancestors.antt =====
-- crates/core/src/ledger.rs, `path`: the scopes from a node up to the root. `none` stands for the
-- panic of an index out of bounds; fuel is the number of scopes, which is enough while every parent
-- is older than its child.
use mathlib.Core.Option
use kyora.Base.{
  ℕ, zero, suc, ◌≤◌, ◌<◌, ◌≡◌, refl, Option, none, some, inl, inr, List, [], ◌∷◌, ◌++◌, arith,
  length, get_elem?, Option-cases, get_elem?-append_left, get_elem?-lt, lt-get_elem?, length-append,
  length-modify, get_elem?-modify, modify, modify_each, ◌∙◌,
}
use package.kyora.Ledger.Scopes.{Scope}

path_from : ℕ → List Scope → Option ℕ → Option (List ℕ)
path_from fuel xs none = some []
path_from zero xs (some id) = none
path_from (suc fuel) xs (some id) = elim (get_elem? xs id) [
  | none ↦ none
  | some n ↦ Option.map (λ ids. id ∷ ids) (path_from fuel xs n.parent)
]

unfoldable pub path : List Scope → ℕ → Option (List ℕ)
unfolding path_from
path xs node = path_from (length xs) xs (some node)

-- Every parent is older than its child.
abbrev pub Tree : List Scope → Type 0
Tree xs = (i : ℕ) (n : Scope) (p : ℕ) → get_elem? xs i ≡ some n → n.parent ≡ some p → p < i

-- The identifiers fall along the path, from below a bound.
abbrev pub Falls : ℕ → List ℕ → Type 0
Falls n [] = Unit {0}
Falls n (i ∷ is) = (i < n) × Falls i is

path_from_total :
    (fuel : ℕ) (xs : List Scope) (i : ℕ)
    → Tree xs
    → i < length xs
    → i < fuel
    → (ids : List ℕ) × (path_from fuel xs (some i) ≡ some (i ∷ ids)) × Falls i ids
unfolding path_from
path_from_total zero xs i t h k = absurd (omega arith)
path_from_total (suc fuel) xs i t h k =
    let (n, e) = lt-get_elem? xs i h in
    elim (Option-cases n.parent) [
      | inl root ↦ ([], rw (e, path_from, root), tt)
      | inr (p, has) ↦
          let older : p < i = t i n p e has in
          let (ids, up, falls) = path_from_total fuel xs p t (omega arith) (omega arith) in
          (p ∷ ids, rw (e, path_from, has, up), (older, falls))
    ]

-- More fuel and more scopes at the end do not change a path that was found.
path_from-grow :
    (fuel more : ℕ) (xs ys : List Scope) (next : Option ℕ) (ids : List ℕ)
    → path_from fuel xs next ≡ some ids
    → fuel ≤ more
    → path_from more (xs ++ ys) next ≡ some ids
unfolding path_from
path_from-grow fuel more xs ys none ids e h = ground arith
path_from-grow zero more xs ys (some i) ids e h = cc
path_from-grow (suc fuel) zero xs ys (some i) ids e h = absurd (omega arith)
path_from-grow (suc fuel) (suc more) xs ys (some i) ids e h = elim (Option-cases (get_elem? xs i)) [
  | inl missing ↦ ground arith
  | inr (n, found) ↦ elim (Option-cases (path_from fuel xs n.parent)) [
    | inl stuck ↦ ground arith
    | inr (rest, up) ↦ ground (
      arith,
      get_elem?-append_left xs ys i (get_elem?-lt xs i found),
      path_from-grow fuel more xs ys n.parent rest up,
    )
  ]
]

-- The parents are all that a path depends on.
parent_at : List Scope → ℕ → Option (Option ℕ)
parent_at xs i = Option.map (λ n. n.parent) (get_elem? xs i)

path_from-same :
    (fuel : ℕ) (xs ys : List Scope) (next : Option ℕ)
    → ((i : ℕ) → parent_at xs i ≡ parent_at ys i)
    → path_from fuel xs next ≡ path_from fuel ys next
unfolding path_from parent_at
path_from-same fuel xs ys none h = ground arith
path_from-same zero xs ys (some i) h = refl
path_from-same (suc fuel) xs ys (some i) h = elim (Option-cases (get_elem? xs i)) [
  | inl missing ↦ ground (arith, h i)
  | inr (n, found) ↦ ground (arith, h i, path_from-same fuel xs ys n.parent h)
]

-- When every parent is older than its children, the path of an existing scope is found within
-- the fuel, begins with the scope itself, and its identifiers fall.
pub path_lem :
    (xs : List Scope) (i : ℕ)
    → Tree xs
    → i < length xs
    → (ids : List ℕ) × (path xs i ≡ some (i ∷ ids)) × Falls i ids
unfolding path
path_lem xs i t h = path_from_total (length xs) xs i t h h

pub path-append :
    (xs ys : List Scope) (i : ℕ) (ids : List ℕ)
    → path xs i ≡ some ids
    → path (xs ++ ys) i ≡ some ids
unfolding path
path-append xs ys i ids e =
    path_from-grow (length xs) _ xs ys (some i) ids e (omega (arith, length-append xs ys))

pub path-modify_each :
    (f : Scope → Scope) (is : List ℕ) (xs : List Scope) (i : ℕ)
    → ((n : Scope) → (f n).parent ≡ n.parent)
    → path (modify_each f is xs) i ≡ path xs i
unfolding path parent_at
path-modify_each f [] xs i h = refl
path-modify_each f (j ∷ is) xs i h =
    path-modify_each f is (modify f j xs) i h
    ∙ rw (length-modify f j xs) (
        path_from-same (length xs) (modify f j xs) xs (some i) (λ k.
          elim (Option-cases (get_elem? xs k)) [
            | inl missing ↦ ground (arith, get_elem?-modify f j k xs)
            | inr (n, found) ↦ ground (arith, get_elem?-modify f j k xs, h n)
          ]))
