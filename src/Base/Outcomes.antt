-- ===== src/Base/Outcomes.antt =====
-- The result of a call that may fail with an error or panic (an `expect`, an index out of bounds).
use mathlib.Core.Path.{◌≡◌, refl}
use mathlib.Core.Option.{Option, none, some}

pub data Outcome {ℓ κ} (E : Type κ) (A : Type ℓ) : Type (ℓ ⊔ κ) where
  ok : A → Outcome E A
  err : E → Outcome E A
  panic : Outcome E A

infixl 5 ◌>>=◌ ◌>>◌
abbrev pub ◌>>=◌ {ℓ κ ι} :
    {E : Type ι} {A : Type ℓ} {B : Type κ} → Outcome E A → (A → Outcome E B) → Outcome E B
ok a >>= f = f a
err e >>= f = err e
panic >>= f = panic

abbrev pub ◌>>◌ {ℓ ι} : {E : Type ι} {B : Type ℓ} → Outcome E (Unit {0}) → Outcome E B → Outcome E B
m >> k = m >>= λ _. k

-- `.ok_or(e)?`
abbrev pub ok_or {ℓ ι} : {E : Type ι} {A : Type ℓ} → Option A → E → Outcome E A
ok_or none e = err e
ok_or (some a) e = ok a

-- `.expect(…)`
abbrev pub expect {ℓ ι} : {E : Type ι} {A : Type ℓ} → Option A → Outcome E A
expect none = panic
expect (some a) = ok a

pub >>=-assoc {ℓ κ ι μ} :
    {E : Type ι} {A : Type ℓ} {B : Type κ} {C : Type μ} (m : Outcome E A) (f : A → Outcome E B)
    (g : B → Outcome E C)
    → (m >>= f >>= g) ≡ (m >>= λ a. f a >>= g)
>>=-assoc (ok a) f g = refl
>>=-assoc (err e) f g = refl
>>=-assoc panic f g = refl

-- A chain that succeeds, by the value of its first part.
abbrev pub Chained {ℓ κ ι} :
    {E : Type ι} {A : Type ℓ} {B : Type κ} → Outcome E A → (A → Outcome E B) → B → Type (ℓ ⊔ κ ⊔ ι)
Chained {A = A} first rest b = (a : A) × (first ≡ ok a) × (rest a ≡ ok b)

pub >>=-eq-ok {ℓ κ ι} :
    {E : Type ι} {A : Type ℓ} {B : Type κ} (first : Outcome E A) (rest : A → Outcome E B) {b : B}
    → first >>= rest ≡ ok b
    → Chained first rest b
>>=-eq-ok panic rest failed = cc
>>=-eq-ok (err problem) rest failed = cc
>>=-eq-ok (ok value) rest done = (value, refl, done)
