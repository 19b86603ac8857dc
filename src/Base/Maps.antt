-- ===== src/Base/Maps.antt =====
-- `BTreeMap<K, V>` with a number for its key: the entries in ascending order of their keys.
use package.kyora.Base.Tests.{◌==◌, ltb, if◌then◌else◌}
use Prim.Native.Nat.{ℕ, suc, ◌+◌, ◌≤◌, ◌<◌}
use mathlib.Core.Path.{◌≡◌, refl}
use mathlib.Core.List.{List, [], ◌∷◌, ◌++◌}
use mathlib.Core.Option.{Option, none, some}
use native.Mathlib.Omega.{arith}

module _ {ℓ} {V : Type ℓ} where
  abbrev pub lookup : ℕ → List (ℕ × V) → Option V
  lookup k [] = none
  lookup k ((j, v) ∷ m) = if k == j then some v else lookup k m

  abbrev pub insert : ℕ → V → List (ℕ × V) → List (ℕ × V)
  insert k v [] = (k, v) ∷ []
  insert k v ((j, w) ∷ m) =
      if k == j then (k, v) ∷ m else if ltb k j then (k, v) ∷ (j, w) ∷ m else (j, w) ∷ insert k v m

  abbrev pub erase : ℕ → List (ℕ × V) → List (ℕ × V)
  erase k [] = []
  erase k ((j, w) ∷ m) = if k == j then erase k m else (j, w) ∷ erase k m

  -- `get_mut(k)` followed by a write.
  abbrev pub update : ℕ → (V → V) → List (ℕ × V) → List (ℕ × V)
  update k f [] = []
  update k f ((j, w) ∷ m) = if k == j then (j, f w) ∷ m else (j, w) ∷ update k f m

  pub lookup-insert :
      (k j : ℕ) (v : V) (m : List (ℕ × V))
      → lookup j (insert k v m) ≡ (if j == k then some v else lookup j m)
  lookup-insert k j v [] = refl
  lookup-insert k j v ((i, w) ∷ m) = ground (arith, lookup-insert k j v m)

  pub lookup-erase :
      (k j : ℕ) (m : List (ℕ × V)) → lookup j (erase k m) ≡ (if j == k then none else lookup j m)
  lookup-erase k j [] = ground arith
  lookup-erase k j ((i, w) ∷ m) = ground (arith, lookup-erase k j m)

  -- All keys are below a bound.
  abbrev pub Below : ℕ → List (ℕ × V) → Type 0
  Below n [] = Unit {0}
  Below n ((j, w) ∷ m) = (j < n) × Below n m

  pub Below-mono : (a b : ℕ) (m : List (ℕ × V)) → a ≤ b → Below a m → Below b m
  Below-mono a b [] h p = tt
  Below-mono a b ((j, w) ∷ m) h p = (omega arith, Below-mono a b m h p.1)

  pub insert-Below :
      (k n : ℕ) (v : V) (m : List (ℕ × V)) → k < n → Below n m → Below n (insert k v m)
  insert-Below k n v [] h p = (h, tt)
  insert-Below k n v ((j, w) ∷ m) h p = ground (arith, insert-Below k n v m)

  pub erase-Below : (k n : ℕ) (m : List (ℕ × V)) → Below n m → Below n (erase k m)
  erase-Below k n [] p = tt
  erase-Below k n ((j, w) ∷ m) p = ground (arith, erase-Below k n m)

  pub lookup-Below : (k n : ℕ) (v : V) (m : List (ℕ × V)) → Below n m → lookup k m ≡ some v → k < n
  lookup-Below k n v [] p e = cc
  lookup-Below k n v ((j, w) ∷ m) p e = ground (arith, lookup-Below k n v m)

  -- The keys ascend, from a least one.
  abbrev pub Ascends : ℕ → List (ℕ × V) → Type 0
  Ascends n [] = Unit {0}
  Ascends n ((j, w) ∷ m) = (n ≤ j) × Ascends (suc j) m

  pub Ascends-mono : (a b : ℕ) (m : List (ℕ × V)) → a ≤ b → Ascends b m → Ascends a m
  Ascends-mono a b [] h p = tt
  Ascends-mono a b ((j, w) ∷ m) h p = (omega arith, p.1)

  pub insert-Ascends :
      (k n : ℕ) (v : V) (m : List (ℕ × V)) → n ≤ k → Ascends n m → Ascends n (insert k v m)
  insert-Ascends k n v [] h p = (h, tt)
  insert-Ascends k n v ((j, w) ∷ m) h p =
      ground (arith, insert-Ascends k (suc j) v m, Ascends-mono (suc k) (suc j) m)

  pub erase-Ascends : (k n : ℕ) (m : List (ℕ × V)) → Ascends n m → Ascends n (erase k m)
  erase-Ascends k n [] p = tt
  erase-Ascends k n ((j, w) ∷ m) p =
      ground (arith, erase-Ascends k (suc j) m, Ascends-mono n (suc j) (erase k m))

  pub erase_absent : (k n : ℕ) (m : List (ℕ × V)) → k < n → Ascends n m → erase k m ≡ m
  erase_absent k n [] h p = refl
  erase_absent k n ((j, w) ∷ m) h p = ground (arith, erase_absent k (suc j) m)

  -- The sum of a weight over the entries.
  abbrev pub sum_over : (V → ℕ) → List (ℕ × V) → ℕ
  sum_over f [] = 0
  sum_over f ((j, w) ∷ m) = f w + sum_over f m

  pub sum_over-insert :
      (f : V → ℕ) (k : ℕ) (v : V) (m : List (ℕ × V))
      → lookup k m ≡ none
      → sum_over f (insert k v m) ≡ f v + sum_over f m
  sum_over-insert f k v [] h = refl
  sum_over-insert f k v ((j, w) ∷ m) h = ground (arith, sum_over-insert f k v m)

  pub sum_over-erase :
      (f : V → ℕ) (k n : ℕ) (v : V) (m : List (ℕ × V))
      → Ascends n m
      → lookup k m ≡ some v
      → sum_over f m ≡ f v + sum_over f (erase k m)
  sum_over-erase f k n v [] p h = cc
  sum_over-erase f k n v ((j, w) ∷ m) p h =
      ground (arith, sum_over-erase f k (suc j) v m, erase_absent k (suc j) m)

  pub sum_over-same :
      (f g : V → ℕ) (m : List (ℕ × V)) → ((v : V) → f v ≡ g v) → sum_over f m ≡ sum_over g m
  sum_over-same f g [] h = refl
  sum_over-same f g ((j, w) ∷ m) h = omega (arith, h w, sum_over-same f g m h)

  -- A key above all others is absent, and its entry goes to the end.
  pub lookup_above : (k : ℕ) (m : List (ℕ × V)) → Below k m → lookup k m ≡ none
  lookup_above k [] p = refl
  lookup_above k ((j, w) ∷ m) p = ground (arith, lookup_above k m)

  pub insert_above :
      (k : ℕ) (v : V) (m : List (ℕ × V)) → Below k m → insert k v m ≡ m ++ (k, v) ∷ []
  insert_above k v [] p = refl
  insert_above k v ((j, w) ∷ m) p = ground (arith, insert_above k v m)

  pub lookup_last :
      (k : ℕ) (v : V) (m : List (ℕ × V)) → Below k m → lookup k (m ++ (k, v) ∷ []) ≡ some v
  lookup_last k v [] p = ground arith
  lookup_last k v ((j, w) ∷ m) p = ground (arith, lookup_last k v m)

  pub update_last :
      (k : ℕ) (f : V → V) (v : V) (m : List (ℕ × V))
      → Below k m
      → update k f (m ++ (k, v) ∷ []) ≡ m ++ (k, f v) ∷ []
  update_last k f v [] p = ground arith
  update_last k f v ((j, w) ∷ m) p = ground (arith, update_last k f v m)

  pub snoc-Below : (k : ℕ) (v : V) (m : List (ℕ × V)) → Below k m → Below (suc k) (m ++ (k, v) ∷ [])
  snoc-Below k v [] p = omega arith
  snoc-Below k v ((j, w) ∷ m) p = (omega arith, snoc-Below k v m p.1)
