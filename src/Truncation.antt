-- ===== src/Truncation.antt =====
-- crates/core/src/tool.rs, `truncate`: a text cut to a number of characters, its head and tail kept
-- around a marker that says how many were left out.
mod Tests
use kyora.Base.{
  ℕ, zero, suc, ◌+◌, ◌-◌, ◌/◌, ◌%◌, ◌≤◌, ◌<◌, ◌≡◌, refl, ◌∙◌, ap, Bool, true, false, Option, none,
  some, List, [], ◌∷◌, ◌++◌, ltb, leb, if◌then◌else◌, Text, codes, decimal, byte_len, len_utf8,
  length, length-append, arith, Bool-cases, inl, inr, ◌⊎◌,
}

abbrev pub take : ℕ → Text → Text
take n [] = []
take zero (c ∷ s) = []
take (suc n) (c ∷ s) = c ∷ take n s

abbrev pub skip : ℕ → Text → Text
skip n [] = []
skip zero (c ∷ s) = c ∷ s
skip (suc n) (c ∷ s) = skip n s

-- `format!("[... {} characters omitted ...]", omitted)`
pub marker : ℕ → Text
marker omitted = codes "[... " ++ (decimal omitted ++ codes " characters omitted ...]")

-- The text with so many characters kept: half of them, rounded up, before the marker.
pub join : Text → ℕ → Text
unfolding marker
join text kept =
    let tail = skip (length text - kept / 2) text in
    take ((kept + 1) / 2) text ++ (marker (length text - kept) ++ tail)

-- The loop, on fuel; `none` when it runs out.
pub shrink : ℕ → Text → ℕ → ℕ → Option Text
unfolding marker join
shrink zero text cap kept = none
shrink (suc fuel) text cap kept =
    let size = byte_len (marker (length text - kept)) in
    let rest = shrink fuel text cap (cap - size) in
    if ltb cap size
    then some (take cap text)
    else if leb kept (cap - size)
    then some (join text kept)
    else rest

unfoldable pub truncate : Text → ℕ → Option Text
unfolding shrink
truncate text cap = if leb (length text) cap then some text else shrink (suc cap) text cap cap

length-take : (n : ℕ) (s : Text) → length (take n s) ≤ n
length-take n [] = omega arith
length-take zero (c ∷ s) = omega arith
length-take (suc n) (c ∷ s) = omega (arith, length-take n s)

length-skip : (n : ℕ) (s : Text) → length (skip n s) ≡ length s - n
length-skip n [] = omega arith
length-skip zero (c ∷ s) = omega arith
length-skip (suc n) (c ∷ s) = omega (arith, length-skip n s)

length-le-byte_len : (s : Text) → length s ≤ byte_len s
unfolding byte_len len_utf8
length-le-byte_len [] = omega arith
length-le-byte_len (c ∷ s) = ground (arith, length-le-byte_len s)

-- What a truncation is: the text itself, its head alone, or head and tail around a marker that
-- names the number of characters left out.
pub data Truncated (text : Text) (cap : ℕ) (out : Text) : Type 0 where
  whole : length text ≤ cap → out ≡ text → Truncated text cap out
  head_only :
      (kept : ℕ)
      → cap < byte_len (marker (length text - kept))
      → out ≡ take cap text
      → Truncated text cap out
  marked :
      (kept : ℕ)
      → kept + byte_len (marker (length text - kept)) ≤ cap
      → cap < length text
      → out ≡ join text kept
      → Truncated text cap out

shrink_lem :
    (fuel : ℕ) (text : Text) (cap kept : ℕ)
    → cap < length text
    → kept < fuel
    → (out : Text) × (shrink fuel text cap kept ≡ some out) × Truncated text cap out
unfolding shrink
shrink_lem zero text cap kept long enough = absurd (omega arith)
shrink_lem (suc fuel) text cap kept long enough =
    let size = byte_len (marker (length text - kept)) in
    elim (Bool-cases (ltb cap size)) [
      | inl tiny ↦ (take cap text, rw tiny refl, Truncated.head_only kept (ground arith) refl)
      | inr roomy ↦ elim (Bool-cases (leb kept (cap - size))) [
        | inl done ↦
            (join text kept, rw (roomy, done) refl, Truncated.marked kept (ground arith) long refl)
        | inr more ↦
            let (out, e, t) = shrink_lem fuel text cap (cap - size) long (ground arith) in
            (out, rw (roomy, more) e, t)
      ]
    ]

-- `truncate` always returns within its fuel: the text itself when it is within the cap; or its first
-- `cap` characters, when some marker has no room; or, of a longer text, head and tail around a marker
-- that says how many characters are left out, all within the cap.
pub truncate_total :
    (text : Text) (cap : ℕ) → (out : Text) × (truncate text cap ≡ some out) × Truncated text cap out
unfolding truncate
truncate_total text cap = elim (Bool-cases (leb (length text) cap)) [
  | inl short ↦ (text, rw short refl, Truncated.whole (ground arith) refl)
  | inr long ↦
      let (out, e, t) = shrink_lem (suc cap) text cap cap (ground arith) (omega arith) in
      (out, rw long e, t)
]

Truncated-length : (text : Text) (cap : ℕ) (out : Text) → Truncated text cap out → length out ≤ cap
unfolding join
Truncated-length text cap out (Truncated.whole short e) = rw e short
Truncated-length text cap out (Truncated.head_only kept tiny e) = rw e (length-take cap text)
Truncated-length text cap out (Truncated.marked kept fits long e) =
    let m = marker (length text - kept) in
    let tail = skip (length text - kept / 2) text in
    let parts = length-append (take ((kept + 1) / 2) text) (m ++ tail) in
    let size : length (join text kept) ≤ cap = omega (
      arith,
      parts,
      length-append m tail,
      length-take ((kept + 1) / 2) text,
      length-skip (length text - kept / 2) text,
      length-le-byte_len m,
    ) in
    rw e size

-- A truncated text has at most as many characters as the cap.
pub truncate-length :
    (text : Text) (cap : ℕ) (out : Text) → truncate text cap ≡ some out → length out ≤ cap
truncate-length text cap out e =
    let (found, e', t) = truncate_total text cap in
    let same : found ≡ out = ground (arith, e, e') in
    rw (← same) (Truncated-length text cap found t)
