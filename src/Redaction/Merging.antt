-- ===== src/Redaction/Merging.antt =====
-- crates/mcp/src/secrets.rs, `Spans::push`: popping touching spans keeps the bytes that are covered.
use kyora.Base.{
  ℕ, suc, ◌≤◌, ◌<◌, min, ◌≡◌, refl, Bool, false, ◌&&◌, ◌||◌, List, [], ◌∷◌, arith, any, ltb, leb,
}
use package.kyora.Redaction.Spans.{absorb}

-- Whether a span covers a byte.
abbrev pub covers : ℕ → ℕ × ℕ → Bool
covers i (start, end) = leb start i && ltb i end

abbrev pub in_spans : ℕ → List (ℕ × ℕ) → Bool
in_spans i spans = any (covers i) spans

-- Beyond the last span.
abbrev pub floor : List (ℕ × ℕ) → ℕ
floor [] = 0
floor ((start, last) ∷ spans) = suc last

-- The spans, the last one first, are not empty and do not touch.
abbrev pub Chain : List (ℕ × ℕ) → Type 0
Chain [] = Unit {0}
Chain ((start, last) ∷ spans) = (start < last) × (floor spans ≤ start) × Chain spans

-- The span that a match and the spans that it touches make.
abbrev pub merged : ℕ → ℕ → List (ℕ × ℕ) → List (ℕ × ℕ)
merged start end spans = ((absorb start spans).0, end) ∷ (absorb start spans).1

pub merged-Chain :
    (start end : ℕ) (spans : List (ℕ × ℕ))
    → start < end
    → floor spans ≤ suc end
    → Chain spans
    → Chain (merged start end spans)
unfolding absorb
merged-Chain start end [] h f c = (h, omega arith, tt)
merged-Chain start end ((earlier, last) ∷ spans) h f c = ground (
  arith,
  merged-Chain (min start earlier) end spans (omega arith) (omega (arith, c.1, c.0)) (c.2),
)

pub merged-in_spans :
    (i start end : ℕ) (spans : List (ℕ × ℕ))
    → start < end
    → floor spans ≤ suc end
    → Chain spans
    → in_spans i (merged start end spans) ≡ (covers i (start, end) || in_spans i spans)
unfolding absorb
merged-in_spans i start end [] h f c = refl
merged-in_spans i start end ((earlier, last) ∷ spans) h f c =
    let later =
      merged-in_spans i (min start earlier) end spans (omega arith) (omega (arith, c.1, c.0))
        (c.2) in
    ground (arith, later)

-- Nothing at or beyond the floor is covered.
pub above_floor :
    (i : ℕ) (spans : List (ℕ × ℕ)) → Chain spans → floor spans ≤ suc i → in_spans i spans ≡ false
above_floor i [] c h = refl
above_floor i ((start, last) ∷ spans) c h =
    ground (arith, above_floor i spans (c.2) (omega (arith, c.0, c.1)))
