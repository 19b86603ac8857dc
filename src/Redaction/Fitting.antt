-- ===== src/Redaction/Fitting.antt =====
-- crates/mcp/src/secrets.rs, `unescape`: an escape is not empty and lies within its text.
use kyora.Base.{
  ℕ, zero, suc, ◌+◌, ◌≤◌, ◌<◌, ◌≡◌, some, [], ◌∷◌, Text, arith, length, Option-cases, inl, inr,
}
use package.kyora.Redaction.Spans.{take, drop}
use package.kyora.Redaction.Escapes.{hex4, surrogate, unicode, simple_escape, unescape}

hex4-fits : (n : ℕ) (bytes : Text) (unit : ℕ) → hex4 n bytes ≡ some unit → n + 4 ≤ length bytes
unfolding hex4
hex4-fits n bytes unit h =
    let four : length (take 4 (drop n bytes)) ≡ 4 = ground (arith, h) in drop_fits n bytes four
  where
    take_fits : (k : ℕ) (t : Text) → length (take k t) ≤ length t
    take_fits k [] = omega arith
    take_fits zero (b ∷ t) = omega arith
    take_fits (suc k) (b ∷ t) = omega (arith, take_fits k t)

    drop_fits : (n : ℕ) (t : Text) → length (take 4 (drop n t)) ≡ 4 → n + 4 ≤ length t
    drop_fits n [] e = absurd (omega arith)
    drop_fits zero (b ∷ t) e = omega (arith, take_fits 4 (b ∷ t))
    drop_fits (suc n) (b ∷ t) e = omega (arith, drop_fits n t e)

surrogate-fits :
    (unit c used : ℕ) (bytes : Text)
    → surrogate unit bytes ≡ some (c, used)
    → (used ≤ length bytes) × (0 < used)
unfolding surrogate
surrogate-fits unit c used bytes h = elim (Option-cases (hex4 8 bytes)) [
  | inl e ↦ absurd (ground (arith, h, e))
  | inr (low, e) ↦ ground (arith, h, e, hex4-fits 8 bytes low e)
]

unicode-fits :
    (c used : ℕ) (bytes : Text)
    → unicode bytes ≡ some (c, used)
    → (used ≤ length bytes) × (0 < used)
unfolding unicode
unicode-fits c used bytes h = elim (Option-cases (hex4 2 bytes)) [
  | inl e ↦ absurd (ground (arith, h, e))
  | inr (unit, e) ↦ ground (arith, h, e, hex4-fits 2 bytes unit e, surrogate-fits unit c used bytes)
]

-- An escape is not empty, and within its text.
pub unescape-fits :
    (c used : ℕ) (bytes : Text)
    → unescape bytes ≡ some (c, used)
    → (used ≤ length bytes) × (0 < used)
unfolding unescape
unescape-fits c used [] h = cc
unescape-fits c used (b ∷ []) h = cc
unescape-fits c used (b ∷ e ∷ bytes) h = elim (Option-cases (simple_escape e)) [
  | inl d ↦ ground (arith, h, d, unicode-fits c used (b ∷ e ∷ bytes))
  | inr (s, d) ↦ ground (arith, h, d, unicode-fits c used (b ∷ e ∷ bytes))
]
