-- ===== src/Ledger/Updates.antt =====
-- crates/core/src/ledger.rs: updates along a path, and the sums of outstanding reservations.
use mathlib.Core.Option
use kyora.Base.{
  ℕ, ◌≤◌, ◌<◌, ◌≡◌, refl, none, some, inl, inr, List, [], ◌∷◌, ◌++◌, true, arith, if◌then◌else◌,
  length, get_elem?, modify, modify_each, contains, Option-cases, get_elem?-modify,
}
use kyora.Base.Maps.{lookup, insert, erase, sum_over, sum_over-same}
use kyora.Ledger.{Scope, Attempts}
use kyora.Ledger.Ancestors.{path, Falls, Tree, path_lem, path-append, path-modify_each}

pub contains-Falls : (n j : ℕ) (is : List ℕ) → Falls n is → contains j is ≡ true → j < n
contains-Falls n j [] f h = cc
contains-Falls n j (i ∷ is) f h = ground (arith, contains-Falls i j is f.1)

-- Each scope of a falling path is updated once, and no other.
pub get_elem?-modify_each {ℓ} :
    {A : Type ℓ} (f : A → A) (n j : ℕ) (is : List ℕ) (xs : List A)
    → Falls n is
    → get_elem? (modify_each f is xs) j
      ≡ (if contains j is then Option.map f (get_elem? xs j) else get_elem? xs j)
get_elem?-modify_each f n j [] xs h = refl
get_elem?-modify_each f n j (i ∷ is) xs h = ground (
  arith,
  get_elem?-modify_each f i j is (modify f i xs) h.1,
  get_elem?-modify f i j xs,
  contains-Falls i j is h.1,
)

-- An updated scope, traced back to the one it was.
pub modify_each_source {ℓ} :
    {A : Type ℓ} (f : A → A) (k j : ℕ) (is : List ℕ) (xs : List A) (n : A)
    → Falls k is
    → get_elem? (modify_each f is xs) j ≡ some n
    → (old : A) × (get_elem? xs j ≡ some old) × (n ≡ (if contains j is then f old else old))
modify_each_source f k j is xs n h e = elim (Option-cases (get_elem? xs j)) [
  | inl missing ↦ absurd (ground (arith, get_elem?-modify_each f k j is xs h))
  | inr (old, found) ↦ (old, found, ground (arith, get_elem?-modify_each f k j is xs h))
]

-- What one attempt holds of one scope: its tokens, if the scope is on the path of its node.
unfoldable pub share : List Scope → ℕ → ℕ × ℕ → ℕ
share xs i (node, tokens) = elim (path xs node) [
  | none ↦ 0
  | some ids ↦ if contains i ids then tokens else 0
]

-- What all outstanding attempts hold of a scope.
unfoldable pub outstanding : List Scope → ℕ → Attempts → ℕ
unfolding share
outstanding xs i m = sum_over (share xs i) m

pub outstanding-modify_each :
    (f : Scope → Scope) (is : List ℕ) (xs : List Scope) (i : ℕ) (m : Attempts)
    → ((n : Scope) → (f n).parent ≡ n.parent)
    → outstanding (modify_each f is xs) i m ≡ outstanding xs i m
unfolding outstanding share
outstanding-modify_each f is xs i m h =
    sum_over-same (share (modify_each f is xs) i) (share xs i) m
      (λ v. rw (share, path-modify_each f is xs v.0 h))

-- Every attempt belongs to a scope.
abbrev pub Homed : ℕ → Attempts → Type 0
Homed n [] = Unit {0}
Homed n ((_, (node, _)) ∷ m) = (node < n) × Homed n m

share-append :
    (xs : List Scope) (y : Scope) (i node tokens : ℕ)
    → Tree xs
    → node < length xs
    → share (xs ++ y ∷ []) i (node, tokens) ≡ share xs i (node, tokens)
unfolding share
share-append xs y i node tokens t h =
    let (ids, e, falls) = path_lem xs node t h in
    ground (arith, path-append xs (y ∷ []) node (node ∷ ids) e)

-- A new scope changes no sum.
pub outstanding-append :
    (xs : List Scope) (y : Scope) (i : ℕ) (m : Attempts)
    → Tree xs
    → Homed (length xs) m
    → outstanding (xs ++ y ∷ []) i m ≡ outstanding xs i m
unfolding outstanding
outstanding-append xs y i [] t h = refl
outstanding-append xs y i ((k, (node, tokens)) ∷ m) t h =
    omega (arith, share-append xs y i node tokens t h.0, outstanding-append xs y i m t h.1)

share_beyond :
    (xs : List Scope) (node tokens : ℕ)
    → Tree xs
    → node < length xs
    → share xs (length xs) (node, tokens) ≡ 0
unfolding share
share_beyond xs node tokens t h =
    let (ids, e, falls) = path_lem xs node t h in
    ground (arith, contains-Falls node (length xs) ids falls)

-- Nothing is outstanding at a scope that is not there yet.
pub outstanding_beyond :
    (xs : List Scope) (m : Attempts)
    → Tree xs
    → Homed (length xs) m
    → outstanding xs (length xs) m ≡ 0
unfolding outstanding
outstanding_beyond xs [] t h = refl
outstanding_beyond xs ((k, (node, tokens)) ∷ m) t h =
    omega (arith, share_beyond xs node tokens t h.0, outstanding_beyond xs m t h.1)

pub Homed-mono : (a b : ℕ) (m : Attempts) → a ≤ b → Homed a m → Homed b m
Homed-mono a b [] h p = tt
Homed-mono a b ((_, (node, _)) ∷ m) h p = (omega arith, Homed-mono a b m h p.1)

pub insert-Homed :
    (n k node tokens : ℕ) (m : Attempts)
    → node < n
    → Homed n m
    → Homed n (insert k (node, tokens) m)
insert-Homed n k node tokens [] h p = (h, tt)
insert-Homed n k node tokens ((j, w) ∷ m) h p = ground (arith, insert-Homed n k node tokens m)

pub erase-Homed : (n k : ℕ) (m : Attempts) → Homed n m → Homed n (erase k m)
erase-Homed n k [] p = tt
erase-Homed n k ((j, w) ∷ m) p = ground (arith, erase-Homed n k m)

pub lookup-Homed :
    (n k node tokens : ℕ) (m : Attempts) → Homed n m → lookup k m ≡ some (node, tokens) → node < n
lookup-Homed n k node tokens [] p e = cc
lookup-Homed n k node tokens ((j, (a, b)) ∷ m) p e =
    ground (arith, lookup-Homed n k node tokens m p.1)
