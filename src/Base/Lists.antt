-- ===== src/Base/Lists.antt =====
-- Lists measured, indexed and updated by native numbers, and counts over them.
use Prim.Native.Nat.{ℕ, zero, suc, ◌+◌, ◌≤◌, ◌<◌}
use mathlib.Core.Path.{◌≡◌, refl, ap}
use mathlib.Core.Bool.{Bool, true, false, ◌||◌}
use mathlib.Core.List.{List, [], ◌∷◌, ◌++◌}
use mathlib.Core.Option.{Option, none, some}
use mathlib.Core.Option
use native.Mathlib.Omega.{arith}
use package.kyora.Base.Tests.{◌==◌, if◌then◌else◌}

module _ {ℓ} {A : Type ℓ} where
  abbrev pub length : List A → ℕ
  length [] = 0
  length (x ∷ xs) = suc (length xs)

  abbrev pub get_elem? : List A → ℕ → Option A
  get_elem? [] i = none
  get_elem? (x ∷ xs) zero = some x
  get_elem? (x ∷ xs) (suc i) = get_elem? xs i

  -- `xs[i] = f(xs[i])`; out of bounds nothing changes.
  abbrev pub modify : (A → A) → ℕ → List A → List A
  modify f i [] = []
  modify f zero (x ∷ xs) = f x ∷ xs
  modify f (suc i) (x ∷ xs) = x ∷ modify f i xs

  -- `for i in is { xs[i] = f(xs[i]) }`
  abbrev pub modify_each : (A → A) → List ℕ → List A → List A
  modify_each f [] xs = xs
  modify_each f (i ∷ is) xs = modify_each f is (modify f i xs)

  -- How many elements pass a test.
  abbrev pub count : (A → Bool) → List A → ℕ
  count p [] = 0
  count p (x ∷ xs) = (if p x then 1 else 0) + count p xs

  abbrev pub any : (A → Bool) → List A → Bool
  any p [] = false
  any p (x ∷ xs) = p x || any p xs

  -- The elements that pass a test, in order.
  abbrev pub select : (A → Bool) → List A → List A
  select p [] = []
  select p (x ∷ xs) = if p x then x ∷ select p xs else select p xs

  pub select-append :
      (p : A → Bool) (xs ys : List A) → select p (xs ++ ys) ≡ select p xs ++ select p ys
  select-append p [] ys = refl
  select-append p (x ∷ xs) ys = ground (arith, select-append p xs ys)

  pub length-append : (xs ys : List A) → length (xs ++ ys) ≡ length xs + length ys
  length-append [] ys = omega arith
  length-append (x ∷ xs) ys = omega (arith, length-append xs ys)

-- Whether a number occurs in a list.
abbrev pub contains : ℕ → List ℕ → Bool
contains n xs = any (λ m. n == m) xs

module _ {ℓ} {A : Type ℓ} where
  pub length-modify : (f : A → A) (i : ℕ) (xs : List A) → length (modify f i xs) ≡ length xs
  length-modify f i [] = refl
  length-modify f zero (x ∷ xs) = refl
  length-modify f (suc i) (x ∷ xs) = ap suc (length-modify f i xs)

  pub length-modify_each :
      (f : A → A) (is : List ℕ) (xs : List A) → length (modify_each f is xs) ≡ length xs
  length-modify_each f [] xs = refl
  length-modify_each f (i ∷ is) xs =
      omega (arith, length-modify_each f is (modify f i xs), length-modify f i xs)

  pub get_elem?-modify :
      (f : A → A) (i j : ℕ) (xs : List A)
      → get_elem? (modify f i xs) j
        ≡ (if j == i then Option.map f (get_elem? xs j) else get_elem? xs j)
  get_elem?-modify f i j [] = ground arith
  get_elem?-modify f zero zero (x ∷ xs) = refl
  get_elem?-modify f zero (suc j) (x ∷ xs) = ground arith
  get_elem?-modify f (suc i) zero (x ∷ xs) = ground arith
  get_elem?-modify f (suc i) (suc j) (x ∷ xs) = ground (arith, get_elem?-modify f i j xs)

  pub get_elem?-lt : (xs : List A) (i : ℕ) {x : A} → get_elem? xs i ≡ some x → i < length xs
  get_elem?-lt [] i e = cc
  get_elem?-lt (y ∷ xs) zero e = omega arith
  get_elem?-lt (y ∷ xs) (suc i) e = omega (arith, get_elem?-lt xs i e)

  pub lt-get_elem? : (xs : List A) (i : ℕ) → i < length xs → (x : A) × (get_elem? xs i ≡ some x)
  lt-get_elem? [] i h = absurd (omega arith)
  lt-get_elem? (y ∷ xs) zero h = (y, refl)
  lt-get_elem? (y ∷ xs) (suc i) h = lt-get_elem? xs i (omega arith)

  pub get_elem?-append_left :
      (xs ys : List A) (i : ℕ) → i < length xs → get_elem? (xs ++ ys) i ≡ get_elem? xs i
  get_elem?-append_left [] ys i h = absurd (omega arith)
  get_elem?-append_left (x ∷ xs) ys zero h = refl
  get_elem?-append_left (x ∷ xs) ys (suc i) h = get_elem?-append_left xs ys i (omega arith)

  -- What is found in a list with one more element at its end.
  pub get_elem?-snoc :
      (xs : List A) (y : A) (i : ℕ)
      → get_elem? (xs ++ y ∷ []) i ≡ (if i == length xs then some y else get_elem? xs i)
  get_elem?-snoc [] y zero = refl
  get_elem?-snoc [] y (suc i) = ground arith
  get_elem?-snoc (x ∷ xs) y zero = ground arith
  get_elem?-snoc (x ∷ xs) y (suc i) = ground (arith, get_elem?-snoc xs y i)

  pub count-append : (p : A → Bool) (xs ys : List A) → count p (xs ++ ys) ≡ count p xs + count p ys
  count-append p [] ys = omega arith
  count-append p (x ∷ xs) ys = omega (arith, count-append p xs ys)

  pub count-le-length : (p : A → Bool) (xs : List A) → count p xs ≤ length xs
  count-le-length p [] = omega arith
  count-le-length p (x ∷ xs) = ground (arith, count-le-length p xs)

  -- A change that no test result depends on keeps the count.
  pub count-modify_same :
      (p : A → Bool) (f : A → A) (i : ℕ) (xs : List A)
      → ((x : A) → p (f x) ≡ p x)
      → count p (modify f i xs) ≡ count p xs
  count-modify_same p f i [] h = refl
  count-modify_same p f zero (x ∷ xs) h = ground (arith, h x)
  count-modify_same p f (suc i) (x ∷ xs) h = omega (arith, count-modify_same p f i xs h)

  pub count-modify_each_same :
      (p : A → Bool) (f : A → A) (is : List ℕ) (xs : List A)
      → ((x : A) → p (f x) ≡ p x)
      → count p (modify_each f is xs) ≡ count p xs
  count-modify_each_same p f [] xs h = refl
  count-modify_each_same p f (i ∷ is) xs h =
      omega (arith, count-modify_each_same p f is (modify f i xs) h, count-modify_same p f i xs h)

  -- A change that makes one element fail a test that it passed lowers the count by one.
  pub count-modify_drop :
      (p : A → Bool) (f : A → A) (i : ℕ) (xs : List A) (x : A)
      → get_elem? xs i ≡ some x
      → p x ≡ true
      → p (f x) ≡ false
      → count p (modify f i xs) + 1 ≡ count p xs
  count-modify_drop p f i [] x e h k = cc
  count-modify_drop p f zero (y ∷ xs) x e h k = ground arith
  count-modify_drop p f (suc i) (y ∷ xs) x e h k = omega (arith, count-modify_drop p f i xs x e h k)

  pub count_pos :
      (p : A → Bool) (i : ℕ) (xs : List A) (x : A)
      → get_elem? xs i ≡ some x
      → p x ≡ true
      → 0 < count p xs
  count_pos p i [] x e h = cc
  count_pos p zero (y ∷ xs) x e h = ground arith
  count_pos p (suc i) (y ∷ xs) x e h = omega (arith, count_pos p i xs x e h)
