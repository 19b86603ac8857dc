-- ===== src/Redaction/Origins.antt =====
-- crates/mcp/src/secrets.rs, `Decoded`: where the decoded bytes came from.
use kyora.Base.{
  ℕ, zero, suc, ◌+◌, ◌≤◌, ◌<◌, ◌≡◌, refl, sym, ◌∙◌, ap, none, some, List, [], ◌∷◌, ◌++◌, Text,
  arith, length, leb, ltb, Bool-cases, Option-cases, inl, inr,
}
use package.kyora.Redaction.Spans.{take, drop}
use package.kyora.Redaction.Escapes.{
  encode_utf8, char_len, unescape, Decoded, same_origin, own_origin, Piece, piece, decode_from,
}
use package.kyora.Redaction.Mask.{drop-drop}
use package.kyora.Redaction.Fitting.{unescape-fits}
use package.kyora.Redaction.Tracing.{
  ComesFrom, Traced, From, drop-get, length-rest, escape-Traced, escape-Linked, rest-Traced,
  own-Linked,
}

-- What holds of one round at byte `at`.
record Placed (text : Text) (at : ℕ) (p : Piece) : Type 0 where
  traced :
      (more : Text) (os : List ℕ)
      → Traced text more os
      → Traced text (p.bytes ++ more) (p.origin ++ os)
  linked : (os : List ℕ) → From text (at + p.used) os → From text at (p.origin ++ os)
  used : (0 < p.used) × (at + p.used ≤ length text)

encode_utf8-some : (c : ℕ) → 0 < length (encode_utf8 c)
unfolding encode_utf8
encode_utf8-some c = ground arith

escape_start :
    (text : Text) (at c used : ℕ) (bytes : Text) (os : List ℕ)
    → 0 < length bytes
    → unescape (drop at text) ≡ some (c, used)
    → From text (at + used) os
    → From text at (same_origin at bytes ++ os)
unfolding same_origin
escape_start text at c used [] os some_left e h = absurd (omega arith)
escape_start text at c used (b ∷ bytes) os some_left e h =
    (refl, escape-Linked text at c used bytes os e h)

-- The bytes of the character that begins at `at`.
chunk : ℕ → Text → Text
chunk b left = take (char_len b) (b ∷ left)

char_len-some : (b : ℕ) → (n : ℕ) × (char_len b ≡ suc n) × (n ≤ 3)
unfolding char_len
char_len-some b = elim (Bool-cases (ltb b 0x80)) [
  | inl e ↦ (0, rw e refl, omega arith)
  | inr e ↦ elim (Bool-cases (ltb b 0xE0)) [
    | inl d ↦ (1, rw (e, d) refl, omega arith)
    | inr d ↦ elim (Bool-cases (ltb b 0xF0)) [
      | inl f ↦ (2, rw (e, d, f) refl, omega arith)
      | inr f ↦ (3, rw (e, d, f) refl, omega arith)
    ]
  ]
]

char_len-one : (b : ℕ) → b < 0x80 → char_len b ≡ 1
unfolding char_len
char_len-one b h = ground arith

length-take : (n : ℕ) (t : Text) → length (take n t) ≤ length t
length-take n [] = omega arith
length-take zero (b ∷ t) = omega arith
length-take (suc n) (b ∷ t) = omega (arith, length-take n t)

module _ (text : Text) (at b : ℕ) (left : Text) (here : drop at text ≡ b ∷ left) where
  -- The rest of the character after its first byte.
  tail_Traced :
      (n : ℕ)
      → char_len b ≡ suc n
      → n ≤ 3
      → (more : Text) (os : List ℕ) → Traced text more os
      → Traced text (take n left ++ more) (own_origin (suc at) (take n left) ++ os)
  unfolding own_origin
  tail_Traced n e small more os h = elim (Bool-cases (leb 0x80 b)) [
    | inl big ↦
        let (found, rest) = drop-get at b left text here in
        rest-Traced text at b found (ground (arith, big)) n (suc at) left (omega arith)
          (omega arith) rest more os h
    | inr low ↦
        let one = char_len-one b (ground (arith, low)) in
        let none_left : n ≡ 0 = omega (arith, e, one) in rw (none_left, nothing left) h
  ]
    where
      nothing : (t : Text) → take 0 t ≡ []
      nothing [] = refl
      nothing (x ∷ t) = refl

  fits : suc (length left) + at ≤ length text
  fits = let k = ap length here in omega (arith, k, length-rest at text)

  copy-Placed :
      (n : ℕ)
      → char_len b ≡ suc n
      → n ≤ 3
      → unescape (b ∷ left) ≡ none
      → Placed text at (record {
        bytes = b ∷ take n left;
        origin = at ∷ own_origin (suc at) (take n left);
        used = suc (length (take n left));
      })
  copy-Placed n e small plain =
      let (found, rest) = drop-get at b left text here in
      let begins : unescape (drop at text) ≡ none = rw here plain in
      record {
        traced = λ more os h. (ComesFrom.copied found begins, tail_Traced n e small more os h);
        linked = λ os h. (refl, own-Linked text at (take n left) os h);
        used = (omega arith, omega (arith, fits, length-take n left));
      }

  escape-Placed :
      (c used : ℕ)
      → unescape (b ∷ left) ≡ some (c, used)
      → Placed text at
          (record { bytes = encode_utf8 c; origin = same_origin at (encode_utf8 c); used = used })
  escape-Placed c used e =
      let (small, some_used) = unescape-fits c used (b ∷ left) e in
      let begins : unescape (drop at text) ≡ some (c, used) = rw here e in
      record {
        traced = escape-Traced text at c used begins 0 (encode_utf8 c) (whole (encode_utf8 c));
        linked =
            λ os h. escape_start text at c used (encode_utf8 c) os (encode_utf8-some c) begins h;
        used = (some_used, omega (arith, fits, small));
      }
    where
      whole : (t : Text) → drop 0 t ≡ t
      whole [] = refl
      whole (x ∷ t) = refl

  piece-Placed : Placed text at (piece at b left)
  unfolding piece own_origin
  piece-Placed = elim (Option-cases (unescape (b ∷ left))) [
    | inl e ↦
        let (n, len, small) = char_len-some b in rw (e, piece, len) (copy-Placed n len small e)
    | inr ((c, used), e) ↦ rw (e, piece) (escape-Placed c used e)
  ]

-- A decoding of a text from byte `at` on.
pub record Sourced (text : Text) (at : ℕ) (view : Decoded) : Type 0 where
  pub traced : Traced text view.text view.origin
  pub linked : From text at view.origin

decode_from-end : (text : Text) (at : ℕ) → drop at text ≡ [] → at ≤ length text → at ≡ length text
decode_from-end text at e h = let k = ap length e in omega (arith, k, length-rest at text)

pub decode_from-Sourced :
    (text : Text) (fuel at : ℕ) (left : Text)
    → drop at text ≡ left
    → at ≤ length text
    → length left ≤ fuel
    → Sourced text at (decode_from fuel at left)
unfolding decode_from
decode_from-Sourced text zero at [] e h enough = record {
  traced = decode_from-end text at e h;
  linked = (refl, tt);
}
decode_from-Sourced text zero at (b ∷ left) e h enough = absurd (omega arith)
decode_from-Sourced text (suc fuel) at [] e h enough = record {
  traced = decode_from-end text at e h;
  linked = (refl, tt);
}
decode_from-Sourced text (suc fuel) at (b ∷ left) e h enough =
    let p = piece at b left in
    let k = piece-Placed text at b left e in
    let onto : drop (at + p.used) text ≡ drop p.used (b ∷ left) =
      ap (λ n. drop n text) (let c : at + p.used ≡ p.used + at = omega arith in c)
      ∙ (sym (drop-drop p.used at text) ∙ ap (drop p.used) e) in
    let shorter = length-rest p.used (b ∷ left) in
    let later =
      decode_from-Sourced text fuel (at + p.used) (drop p.used (b ∷ left)) onto (k.used.1)
        (omega (arith, shorter, k.used.0)) in
    let rest = decode_from fuel (at + p.used) (drop p.used (b ∷ left)) in
    record {
      traced = k.traced rest.text rest.origin later.traced;
      linked = k.linked rest.origin later.linked;
    }
