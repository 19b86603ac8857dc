-- ===== src/Redaction/Views.antt =====
-- crates/mcp/src/secrets.rs, `Decoded::new`: the view of a whole text, as it is or after a cut.
use kyora.Base.{
  ℕ, suc, ◌+◌, ◌-◌, ◌≤◌, ◌≡◌, refl, Bool, true, false, some, List, [], ◌∷◌, map, Text, arith,
  contains, length, leb, Bool-cases, Option-cases, inl, inr, if◌then◌else◌,
}
use kyora.Base.Words.{u32_mod}
use package.kyora.Redaction.Spans.{drop}
use package.kyora.Redaction.Escapes.{Decoded, decode_from, decode, new_decoded}
use package.kyora.Redaction.Tracing.{Traced, Follows, Linked, From, passes, moves, stays}
use package.kyora.Redaction.Origins.{Sourced, decode_from-Sourced}

-- The text that is decoded: after a cut, with a backslash before it.
abbrev pub decoded_text : Bool → Text → Text
decoded_text cut text = if cut then 92 ∷ text else text

-- The offsets in the text itself.
abbrev pub without_backslash : Bool → List ℕ → List ℕ
without_backslash cut os = if cut then map (λ o. o - 1) os else os

-- Offsets that do not fall, from a least one, and are within the text.
abbrev pub Climbs : ℕ → ℕ → List ℕ → Type 0
Climbs size low [] = Unit {0}
Climbs size low (o ∷ os) = (low ≤ o) × (o ≤ size) × Climbs size o os

-- What the offsets of a view are: one for each byte and one for the end; in order and within the text;
-- and, in the text that is decoded, the places that the bytes come from, of which none is left out.
pub record Mapped (text : Text) (cut : Bool) (view : Decoded) : Type 0 where
  pub offsets : List ℕ
  pub placed : view.origin ≡ without_backslash cut offsets
  pub sizes : length view.origin ≡ suc (length view.text)
  pub climbs : Climbs (length text) 0 view.origin
  pub traced : Traced (decoded_text cut text) view.text offsets
  pub linked : From (decoded_text cut text) 0 offsets

length-offsets :
    (text bytes : Text) (os : List ℕ) → Traced text bytes os → length os ≡ suc (length bytes)
length-offsets text [] [] h = absurd h
length-offsets text [] (o ∷ []) h = refl
length-offsets text [] (o ∷ p ∷ os) h = absurd h
length-offsets text (b ∷ bytes) [] h = absurd h
length-offsets text (b ∷ bytes) (o ∷ os) h = omega (arith, length-offsets text bytes os (h.1))

Follows-le : (text : Text) (o o' : ℕ) → Follows text o o' → o ≤ o'
Follows-le text o o' (stays e) = omega arith
Follows-le text o o' (moves e) = omega arith
Follows-le text o o' (passes c used e at) = omega arith

-- The offsets from `o` on, up to the end of the text.
Linked-Climbs :
    (text bytes : Text) (o : ℕ) (os : List ℕ)
    → Linked text o os
    → Traced text bytes (o ∷ os)
    → (o ≤ length text) × Climbs (length text) o os
Linked-Climbs text [] o [] l t = (omega (arith, t), tt)
Linked-Climbs text [] o (p ∷ os) l t = absurd t
Linked-Climbs text (b ∷ bytes) o [] l t = absurd (no_end bytes (t.1))
  where
    no_end : (bytes : Text) → Traced text bytes [] → ⊥
    no_end [] h = h
    no_end (b ∷ bytes) h = h
Linked-Climbs text (b ∷ bytes) o (p ∷ os) l t =
    let (small, later) = Linked-Climbs text bytes p os (l.1) (t.1) in
    let up = Follows-le text o p (l.0) in (omega (arith, up, small), (up, small, later))

From-Climbs :
    (text bytes : Text) (os : List ℕ)
    → From text 0 os
    → Traced text bytes os
    → Climbs (length text) 0 os
From-Climbs text bytes [] f t = absurd f
From-Climbs text bytes (o ∷ os) f t =
    let (small, later) = Linked-Climbs text bytes o os (f.1) t in (omega arith, small, later)

shift-Climbs :
    (size low : ℕ) (os : List ℕ)
    → Climbs (suc size) low os
    → Climbs size (low - 1) (map (λ o. o - 1) os)
shift-Climbs size low [] c = tt
shift-Climbs size low (o ∷ os) c =
    (omega (arith, c.0), omega (arith, c.1), shift-Climbs size o os (c.2))

length-shift : (os : List ℕ) → length (map (λ o. o - 1) os) ≡ length os
length-shift [] = refl
length-shift (o ∷ os) = omega (arith, length-shift os)

decode-Sourced : (text : Text) (view : Decoded) → decode text ≡ some view → Sourced text 0 view
unfolding decode
decode-Sourced text view h = elim (Bool-cases (leb u32_mod (length text + 1))) [
  | inl e ↦ absurd (ground (arith, e, h))
  | inr e ↦ elim (Bool-cases (contains 92 text)) [
    | inl d ↦
        let same : decode_from (length text) 0 text ≡ view = ground (arith, e, d, h) in
        rw (← same)
          (decode_from-Sourced text (length text) 0 text (whole text) (omega arith) (omega arith))
    | inr d ↦ absurd (ground (arith, e, d, h))
  ]
]
  where
    whole : (t : Text) → drop 0 t ≡ t
    whole [] = refl
    whole (x ∷ t) = refl

shifted : Decoded → Decoded
shifted view = record view { origin = map (λ o. o - 1) view.origin }

plain-Mapped : (text : Text) (view : Decoded) → Sourced text 0 view → Mapped text false view
plain-Mapped text view k = record {
  offsets = view.origin;
  placed = refl;
  sizes = length-offsets text view.text view.origin k.traced;
  climbs = From-Climbs text view.text view.origin k.linked k.traced;
  traced = k.traced;
  linked = k.linked;
}

shift-Mapped :
    (text : Text) (view : Decoded) → Sourced (92 ∷ text) 0 view → Mapped text true (shifted view)
unfolding shifted
shift-Mapped text view k =
    let sizes = length-offsets (92 ∷ text) view.text view.origin k.traced in
    record {
      offsets = view.origin;
      placed = refl;
      sizes = omega (arith, length-shift view.origin, sizes);
      climbs =
          shift-Climbs (length text) 0 view.origin
            (From-Climbs (92 ∷ text) view.text view.origin k.linked k.traced);
      traced = k.traced;
      linked = k.linked;
    }

-- A decoded text, as it is or, after a cut, as if a backslash came before it, has one offset for each
-- of its bytes and one for its end, which is the end of the text; the offsets are within the text and
-- do not fall. Each byte is the byte at its offset, where no escape begins or within a character of
-- several bytes, or a byte of the character whose escape begins there; and each offset is the one
-- before it, or the next, or that after the escape there, from the start on. So matches are mapped
-- back to what they came from, within the text, and stay in the order of their ends.
pub new_decoded-Mapped :
    (text : Text) (cut : Bool) (view : Decoded)
    → new_decoded text cut ≡ some view
    → Mapped text cut view
unfolding new_decoded shifted
new_decoded-Mapped text false view h = plain-Mapped text view (decode-Sourced text view h)
new_decoded-Mapped text true view h = elim (Bool-cases (leb u32_mod (length text + 1))) [
  | inl e ↦ absurd (ground (arith, e, h))
  | inr e ↦ elim (Option-cases (decode (92 ∷ text))) [
    | inl d ↦ absurd (ground (arith, e, d, h))
    | inr (inner, d) ↦
        let same : shifted inner ≡ view = ground (arith, e, d, h) in
        rw (← same) (shift-Mapped text inner (decode-Sourced (92 ∷ text) inner d))
  ]
]
