-- ===== src/Redaction/Mask.antt =====
-- What redaction means, byte by byte: every run of covered bytes becomes one placeholder.
use kyora.Base.{
  ℕ, zero, suc, ◌+◌, ◌≤◌, ◌<◌, ◌≡◌, refl, ap, Bool, true, false, [], ◌∷◌, ◌++◌, Text, arith, length,
  if◌then◌else◌,
}
use package.kyora.Redaction.Spans.{redacted, take, drop}

-- The bytes of a text from position `i` on, of which some are covered; `inside` a run the placeholder
-- is already written.
abbrev pub mask : (ℕ → Bool) → Bool → ℕ → Text → Text
mask covered inside i [] = []
mask covered inside i (b ∷ text) =
    let after_covered = mask covered true (suc i) text in
    let after_clear = mask covered false (suc i) text in
    if covered i
    then (if inside then after_covered else redacted ++ after_covered)
    else b ∷ after_clear

module _ (covered : ℕ → Bool) where
  -- A run is over at a byte that is not covered.
  pub mask_leave :
      (i : ℕ) (text : Text)
      → covered i ≡ false
      → mask covered true i text ≡ mask covered false i text
  mask_leave i [] h = refl
  mask_leave i (b ∷ text) h = rw h refl

  -- Bytes that are not covered are copied.
  pub mask_clear :
      (n i : ℕ) (text : Text)
      → ((j : ℕ) → i ≤ j → j < n + i → covered j ≡ false)
      → mask covered false i text ≡ take n text ++ mask covered false (n + i) (drop n text)
  mask_clear zero i [] h = refl
  mask_clear (suc n) i [] h = refl
  mask_clear zero i (b ∷ text) h = let at : 0 + i ≡ i = omega arith in rw at refl
  mask_clear (suc n) i (b ∷ text) h =
      let here = h i (omega arith) (omega arith) in
      let at : suc n + i ≡ n + suc i = omega arith in
      rw (here, at)
        (ap (λ t. b ∷ t) (mask_clear n (suc i) text (λ j p q. h j (omega arith) (omega arith))))

  -- Covered bytes vanish inside a run.
  pub mask_inside :
      (n i : ℕ) (text : Text)
      → ((j : ℕ) → i ≤ j → j < n + i → covered j ≡ true)
      → mask covered true i text ≡ mask covered true (n + i) (drop n text)
  mask_inside zero i [] h = refl
  mask_inside (suc n) i [] h = refl
  mask_inside zero i (b ∷ text) h = let at : 0 + i ≡ i = omega arith in rw at refl
  mask_inside (suc n) i (b ∷ text) h =
      let here = h i (omega arith) (omega arith) in
      let at : suc n + i ≡ n + suc i = omega arith in
      rw (here, at) (mask_inside n (suc i) text (λ j p q. h j (omega arith) (omega arith)))

  -- A run is replaced by one placeholder.
  pub mask_run :
      (n i : ℕ) (text : Text)
      → 0 < length text
      → ((j : ℕ) → i ≤ j → j < suc n + i → covered j ≡ true)
      → mask covered false i text ≡ redacted ++ mask covered true (suc n + i) (drop (suc n) text)
  mask_run n i [] some_left h = absurd (omega arith)
  mask_run n i (b ∷ text) some_left h =
      let here = h i (omega arith) (omega arith) in
      let at : suc n + i ≡ n + suc i = omega arith in
      rw (here, at)
        (ap (λ t. redacted ++ t)
          (mask_inside n (suc i) text (λ j p q. h j (omega arith) (omega arith))))

  -- The rest of a text that is not covered.
  pub mask_rest :
      (i : ℕ) (text : Text)
      → ((j : ℕ) → i ≤ j → covered j ≡ false)
      → mask covered false i text ≡ text
  mask_rest i [] h = refl
  mask_rest i (b ∷ text) h =
      let here = h i (omega arith) in
      rw here (ap (λ t. b ∷ t) (mask_rest (suc i) text (λ j p. h j (omega arith))))

pub drop-drop : (n m : ℕ) (text : Text) → drop n (drop m text) ≡ drop (n + m) text
drop-drop zero m [] = refl
drop-drop (suc n) m [] = refl
drop-drop n zero (b ∷ text) = ap (λ k. drop k (b ∷ text)) (let e : n ≡ n + 0 = omega arith in e)
drop-drop n (suc m) (b ∷ text) =
    let at : n + suc m ≡ suc (n + m) = omega arith in rw at (drop-drop n m text)

pub length-drop : (n : ℕ) (text : Text) → n < length text → 0 < length (drop n text)
length-drop n [] h = absurd (omega arith)
length-drop zero (b ∷ text) h = omega arith
length-drop (suc n) (b ∷ text) h = length-drop n text (omega arith)
