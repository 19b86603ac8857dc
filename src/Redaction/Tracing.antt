-- ===== src/Redaction/Tracing.antt =====
-- crates/mcp/src/secrets.rs, `Decoded`: what the offsets of a decoded text say of the text.
use kyora.Base.{
  ℕ, zero, suc, ◌+◌, ◌-◌, ◌≤◌, ◌<◌, ◌≡◌, refl, none, some, List, [], ◌∷◌, ◌++◌, Text, arith,
  get_elem?, length,
}
use package.kyora.Redaction.Spans.{take, drop}
use package.kyora.Redaction.Escapes.{encode_utf8, unescape, same_origin, own_origin}

-- How a decoded byte belongs to an offset of the text: it is the byte there, where no escape begins;
-- or it is the byte there, after the first byte of a character of several bytes; or it is a byte of
-- the character whose escape begins there.
pub data ComesFrom (text : Text) (b o : ℕ) : Type 0 where
  copied : get_elem? text o ≡ some b → unescape (drop o text) ≡ none → ComesFrom text b o
  continued :
      (first d : ℕ)
      → get_elem? text o ≡ some b
      → first < o
      → o < first + 4
      → get_elem? text first ≡ some d
      → 0x80 ≤ d
      → ComesFrom text b o
  decoded :
      (c used i : ℕ)
      → unescape (drop o text) ≡ some (c, used)
      → get_elem? (encode_utf8 c) i ≡ some b
      → ComesFrom text b o

-- Every decoded byte comes from its offset, and the last offset is the end of the text.
abbrev pub Traced : Text → Text → List ℕ → Type 0
Traced text [] [] = ⊥
Traced text [] (o ∷ []) = o ≡ length text
Traced text [] (o ∷ _ ∷ _) = ⊥
Traced text (b ∷ bytes) [] = ⊥
Traced text (b ∷ bytes) (o ∷ os) = ComesFrom text b o × Traced text bytes os

-- How one offset follows another: in the same escape, by a byte, or by an escape.
pub data Follows (text : Text) (o o' : ℕ) : Type 0 where
  stays : o' ≡ o → Follows text o o'
  moves : o' ≡ suc o → Follows text o o'
  passes :
      (c used : ℕ) → unescape (drop o text) ≡ some (c, used) → o' ≡ o + used → Follows text o o'

-- Every offset follows the one before it, so that no byte of the text is left out.
abbrev pub Linked : Text → ℕ → List ℕ → Type 0
Linked text o [] = Unit {0}
Linked text o (o' ∷ os) = Follows text o o' × Linked text o' os

abbrev pub From : Text → ℕ → List ℕ → Type 0
From text at [] = ⊥
From text at (o ∷ os) = (o ≡ at) × Linked text o os

drop_zero : (t : Text) → drop 0 t ≡ t
drop_zero [] = refl
drop_zero (x ∷ t) = refl

pub drop-get :
    (o b : ℕ) (rest t : Text)
    → drop o t ≡ b ∷ rest
    → (get_elem? t o ≡ some b) × (drop (suc o) t ≡ rest)
drop-get o b rest [] h = cc
drop-get zero b rest (x ∷ t) h = let z = drop_zero t in (cc, cc)
drop-get (suc o) b rest (x ∷ t) h = drop-get o b rest t h

pub length-rest : (o : ℕ) (t : Text) → length (drop o t) ≡ length t - o
length-rest zero [] = omega arith
length-rest (suc o) [] = omega arith
length-rest zero (x ∷ t) = omega arith
length-rest (suc o) (x ∷ t) = omega (arith, length-rest o t)

-- The bytes of one escape.
pub escape-Traced :
    (text : Text) (at c used : ℕ)
    → unescape (drop at text) ≡ some (c, used)
    → (j : ℕ) (bytes : Text) → drop j (encode_utf8 c) ≡ bytes
    → (more : Text) (os : List ℕ) → Traced text more os
    → Traced text (bytes ++ more) (same_origin at bytes ++ os)
unfolding same_origin
escape-Traced text at c used e j [] d more os h = h
escape-Traced text at c used e j (b ∷ bytes) d more os h =
    let (found, rest) = drop-get j b bytes (encode_utf8 c) d in
    (
      ComesFrom.decoded c used j e found,
      escape-Traced text at c used e (suc j) bytes rest more os h,
    )

pub escape-Linked :
    (text : Text) (at c used : ℕ) (bytes : Text) (os : List ℕ)
    → unescape (drop at text) ≡ some (c, used)
    → From text (at + used) os
    → Linked text at (same_origin at bytes ++ os)
unfolding same_origin
escape-Linked text at c used [] [] e h = absurd h
escape-Linked text at c used [] (o ∷ os) e h = (Follows.passes c used e (h.0), h.1)
escape-Linked text at c used (b ∷ bytes) os e h =
    (Follows.stays refl, escape-Linked text at c used bytes os e h)

-- The later bytes of a copied character, whose first byte is `d`.
pub rest-Traced :
    (text : Text) (first d : ℕ)
    → get_elem? text first ≡ some d
    → 0x80 ≤ d
    → (n at : ℕ) (left : Text) → first < at
    → at + n ≤ first + 4
    → drop at text ≡ left
    → (more : Text) (os : List ℕ) → Traced text more os
    → Traced text (take n left ++ more) (own_origin at (take n left) ++ os)
unfolding own_origin
rest-Traced text first d g big n at [] below fits e more os h = h
rest-Traced text first d g big zero at (b ∷ left) below fits e more os h = h
rest-Traced text first d g big (suc n) at (b ∷ left) below fits e more os h =
    let (found, rest) = drop-get at b left text e in
    (
      ComesFrom.continued first d found below (omega arith) g big,
      rest-Traced text first d g big n (suc at) left (omega arith) (omega arith) rest more os h,
    )

pub own-Linked :
    (text : Text) (at : ℕ) (bytes : Text) (os : List ℕ)
    → From text (at + suc (length bytes)) os
    → Linked text at (own_origin (suc at) bytes ++ os)
unfolding own_origin
own-Linked text at [] [] h = absurd h
own-Linked text at [] (o ∷ os) h = (Follows.moves (omega (arith, h.0)), h.1)
own-Linked text at (b ∷ bytes) os h =
    let on : at + suc (suc (length bytes)) ≡ suc at + suc (length bytes) = omega arith in
    (Follows.moves refl, own-Linked text (suc at) bytes os (rw on at h))
