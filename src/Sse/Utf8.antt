-- ===== src/Sse/Utf8.antt =====
-- `std::str::from_utf8`, as RFC 3629 and the standard library define it: the code points of bytes.
use kyora.Base.{
  ℕ, zero, suc, ◌+◌, ◌-◌, ◌*◌, Bool, ◌&&◌, Option, none, some, List, [], ◌∷◌, ◌++◌, ◌==◌, leb, ltb,
  ◌<◌, ◌≢◌, ◌≡◌, refl, ap, ◌∙◌, arith, if◌then◌else◌, Text,
}
use mathlib.Core.Option

-- The bytes that a character still needs, the bounds of the next one, and the bits so far.
record Decoder : Type 0 where
  need : ℕ
  low : ℕ
  high : ℕ
  bits : ℕ

abbrev idle : Decoder
idle = record { need = 0; low = 0; high = 0; bits = 0 }

abbrev within : ℕ → ℕ → ℕ → Bool
within low high b = leb low b && leb b high

abbrev expecting : ℕ → ℕ → ℕ → ℕ → Option (List ℕ × Decoder)
expecting need low high bits =
    some ([], record { need = need; low = low; high = high; bits = bits })

-- The first byte of a character. Overlong forms, surrogates and numbers past 0x10FFFF are refused
-- by the bounds of the second byte.
lead : ℕ → Option (List ℕ × Decoder)
lead b =
    if ltb b 0x80
    then some (b ∷ [], idle)
    else if within 0xC2 0xDF b
    then expecting 1 0x80 0xBF (b - 0xC0)
    else if b == 0xE0
    then expecting 2 0xA0 0xBF 0
    else if b == 0xED
    then expecting 2 0x80 0x9F 0xD
    else if within 0xE1 0xEF b
    then expecting 2 0x80 0xBF (b - 0xE0)
    else if b == 0xF0
    then expecting 3 0x90 0xBF 0
    else if within 0xF1 0xF3 b
    then expecting 3 0x80 0xBF (b - 0xF0)
    else if b == 0xF4
    then expecting 3 0x80 0x8F 4
    else none

decode_byte : Decoder → ℕ → Option (List ℕ × Decoder)
unfolding lead
decode_byte d b = elim (d.need) [
  | zero ↦ lead b
  | suc more ↦
      let bits = d.bits * 64 + (b - 0x80) in
      if within d.low d.high b
      then (if more == 0 then some (bits ∷ [], idle) else expecting more 0x80 0xBF bits)
      else none
]

decode : Decoder → List ℕ → Option Text
unfolding decode_byte
decode d [] = if d.need == 0 then some [] else none
decode d (b ∷ bytes) = elim (decode_byte d b) [
  | none ↦ none
  | some (out, next) ↦ Option.map (λ more. out ++ more) (decode next bytes)
]

unfoldable pub from_utf8 : List ℕ → Option Text
unfolding decode
from_utf8 bytes = decode idle bytes

-- ASCII characters without a line end.
abbrev pub Plain : Text → Type 0
Plain [] = Unit {0}
Plain (c ∷ s) = (c < 128) × (c ≢ 10) × (c ≢ 13) × Plain s

pub Plain-append : (s t : Text) → Plain s → Plain t → Plain (s ++ t)
Plain-append [] t h k = k
Plain-append (c ∷ s) t h k = (h.0, h.1, h.2, Plain-append s t h.3 k)

decode_byte-ascii : (c : ℕ) → c < 128 → decode_byte idle c ≡ some (c ∷ [], idle)
unfolding decode_byte lead
decode_byte-ascii c h = ground arith

decode-Plain : (s : Text) → Plain s → decode idle s ≡ some s
unfolding decode
decode-Plain [] h = refl
decode-Plain (c ∷ s) h =
    ap onward (decode_byte-ascii c h.0) ∙ ap (Option.map (λ more. c ∷ more)) (decode-Plain s h.3)
  where
    onward : Option (List ℕ × Decoder) → Option Text
    onward none = none
    onward (some (out, next)) = Option.map (λ more. out ++ more) (decode next s)

-- ASCII bytes are their own characters.
pub from_utf8-Plain : (s : Text) → Plain s → from_utf8 s ≡ some s
unfolding from_utf8
from_utf8-Plain s h = decode-Plain s h
