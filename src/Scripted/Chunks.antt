-- ===== src/Scripted/Chunks.antt =====
-- crates/providers/src/fake.rs, `chunks`: a text cut into pieces of at most so many bytes, between
-- characters; a single character may exceed the size.
use mathlib.Core.List.{append_assoc}
use kyora.Base.{
  ℕ, ◌+◌, ◌≤◌, ◌<◌, ◌≡◌, refl, ◌⊎◌, inl, inr, ◌&&◌, List, [], ◌∷◌, ◌++◌, ltb, if◌then◌else◌, Text,
  len_utf8, byte_len, concat, length, arith, length-append, Bool-cases,
}

-- `current` is `text[start..index]`, and `bytes` is `index - start`.
chunks_from : ℕ → Text → Text → ℕ → List Text
chunks_from size [] current bytes = current ∷ []
chunks_from size (c ∷ rest) current bytes =
    let cut = chunks_from size rest (c ∷ []) (len_utf8 c) in
    let go_on = chunks_from size rest (current ++ c ∷ []) (bytes + len_utf8 c) in
    if ltb 0 bytes && ltb size (bytes + len_utf8 c) then current ∷ cut else go_on

unfoldable pub chunks : Text → ℕ → List Text
unfolding chunks_from
chunks text size = chunks_from size text [] 0

concat-chunks_from :
    (size : ℕ) (rest current : Text) (bytes : ℕ)
    → concat (chunks_from size rest current bytes) ≡ current ++ rest
unfolding chunks_from concat
concat-chunks_from size [] current bytes = refl
concat-chunks_from size (c ∷ rest) current bytes = ground (
  arith,
  concat-chunks_from size rest (c ∷ []) (len_utf8 c),
  concat-chunks_from size rest (current ++ c ∷ []) (bytes + len_utf8 c),
  append_assoc current (c ∷ []) rest,
)

chunks_from-some :
    (size : ℕ) (rest current : Text) (bytes : ℕ)
    → (p : Text) × (ps : List Text) × (chunks_from size rest current bytes ≡ p ∷ ps)
unfolding chunks_from
chunks_from-some size [] current bytes = (current, [], refl)
chunks_from-some size (c ∷ rest) current bytes =
    elim (Bool-cases (ltb 0 bytes && ltb size (bytes + len_utf8 c))) [
      | inl cut ↦ (current, chunks_from size rest (c ∷ []) (len_utf8 c), rw cut)
      | inr more ↦
          let (p, ps, e) = chunks_from-some size rest (current ++ c ∷ []) (bytes + len_utf8 c) in
          (p, ps, rw more e)
    ]

-- There is always a piece, an empty one for an empty text.
pub chunks-some : (s : Text) (size : ℕ) → (p : Text) × (ps : List Text) × (chunks s size ≡ p ∷ ps)
unfolding chunks
chunks-some s size = chunks_from-some size s [] 0

-- Every piece is within the size or a single character.
abbrev pub Small : ℕ → List Text → Type 0
Small size [] = Unit {0}
Small size (p ∷ ps) = ((byte_len p ≤ size) ⊎ (length p ≤ 1)) × Small size ps

byte_len-snoc : (s : Text) (c : ℕ) → byte_len (s ++ c ∷ []) ≡ byte_len s + len_utf8 c
unfolding byte_len
byte_len-snoc [] c = omega arith
byte_len-snoc (d ∷ s) c = omega (arith, byte_len-snoc s c)

one : (c : ℕ) → len_utf8 c ≡ byte_len (c ∷ [])
unfolding byte_len
one c = omega arith

len_utf8_pos : (c : ℕ) → 0 < len_utf8 c
unfolding len_utf8
len_utf8_pos c = ground arith

byte_len_none : (s : Text) → byte_len s ≡ 0 → length s ≡ 0
unfolding byte_len
byte_len_none [] h = refl
byte_len_none (c ∷ s) h = absurd (omega (arith, len_utf8_pos c))

chunks_from-Small :
    (size : ℕ) (rest current : Text) (bytes : ℕ)
    → bytes ≡ byte_len current
    → (byte_len current ≤ size) ⊎ (length current ≤ 1)
    → Small size (chunks_from size rest current bytes)
unfolding chunks_from
chunks_from-Small size [] current bytes e h = (h, tt)
chunks_from-Small size (c ∷ rest) current bytes e h =
    elim (Bool-cases (ltb 0 bytes && ltb size (bytes + len_utf8 c))) [
      | inl cut ↦
          rw cut (h, chunks_from-Small size rest (c ∷ []) (len_utf8 c) (one c) (inr (omega arith)))
      | inr more ↦ rw more (
          chunks_from-Small size rest (current ++ c ∷ []) (bytes + len_utf8 c)
            (omega (arith, byte_len-snoc current c))
            (ground (
              arith,
              byte_len-snoc current c,
              byte_len_none current,
              length-append current (c ∷ []),
            )))
    ]

-- The pieces put together are the text, and each is within the size in bytes or a single character.
pub chunks_lem : (s : Text) (size : ℕ) → (concat (chunks s size) ≡ s) × Small size (chunks s size)
unfolding chunks byte_len
chunks_lem s size = (
  concat-chunks_from size s [] 0,
  chunks_from-Small size s [] 0 (ground arith) (inr (omega arith)),
)
