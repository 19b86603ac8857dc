-- ===== src/Redaction/Escapes.antt =====
-- crates/mcp/src/secrets.rs, `Decoded`: a text, as its bytes, with its JSON escapes decoded.
use kyora.Base.{
  ℕ, zero, suc, ◌+◌, ◌-◌, ◌*◌, ◌/◌, ◌%◌, Bool, true, false, ◌&&◌, ◌||◌, Option, none, some, List,
  [], ◌∷◌, ◌++◌, map, Text, contains, length, ltb, leb, ◌==◌, if◌then◌else◌,
}
use kyora.Base.Words.{u32_mod}
use package.kyora.Redaction.Spans.{take, drop}

-- The UTF-8 bytes of a character, by `String::push`.
unfoldable pub encode_utf8 : ℕ → Text
encode_utf8 c =
    if ltb c 0x80
    then c ∷ []
    else if ltb c 0x800
    then (0xC0 + c / 64) ∷ (0x80 + c % 64) ∷ []
    else if ltb c 0x1_0000
    then (0xE0 + c / 4096) ∷ (0x80 + c / 64 % 64) ∷ (0x80 + c % 64) ∷ []
    else (0xF0 + c / 262_144) ∷ (0x80 + c / 4096 % 64) ∷ (0x80 + c / 64 % 64) ∷ (0x80 + c % 64) ∷ []

-- How many bytes the character has that a text begins with, by its first byte.
unfoldable pub char_len : ℕ → ℕ
char_len b = if ltb b 0x80 then 1 else if ltb b 0xE0 then 2 else if ltb b 0xF0 then 3 else 4

-- The value of a hexadecimal digit.
unfoldable pub hex_digit : ℕ → Option ℕ
hex_digit b =
    if leb 48 b && leb b 57
    then some (b - 48)
    else if leb 65 b && leb b 70
    then some (b - 55)
    else if leb 97 b && leb b 102
    then some (b - 87)
    else none

unfoldable pub hex_value : ℕ → Text → Option ℕ
unfolding hex_digit
hex_value value [] = some value
hex_value value (b ∷ digits) = elim (hex_digit b) [
  | none ↦ none
  | some d ↦ hex_value (value * 16 + d) digits
]

-- `hex4` of the four bytes from `n` on, if there are so many.
unfoldable pub hex4 : ℕ → Text → Option ℕ
unfolding hex_value
hex4 n bytes =
    let digits = take 4 (drop n bytes) in if length digits == 4 then hex_value 0 digits else none

abbrev pub is_low : ℕ → Bool
is_low unit = leb 0xDC00 unit && leb unit 0xDFFF

abbrev pub byte_at : ℕ → Text → ℕ
byte_at n [] = 0
byte_at zero (b ∷ bytes) = b
byte_at (suc n) (b ∷ bytes) = byte_at n bytes

-- The second half of a surrogate pair, after `\u`.
unfoldable pub surrogate : ℕ → Text → Option (ℕ × ℕ)
unfolding hex4
surrogate unit bytes =
    if (byte_at 6 bytes == 92) && (byte_at 7 bytes == 117)
    then (elim (hex4 8 bytes) [
      | none ↦ none
      | some low ↦
          if is_low low then some (0x1_0000 + (unit - 0xD800) * 1024 + (low - 0xDC00), 12) else none
    ])
    else none

-- `unicode`
unfoldable pub unicode : Text → Option (ℕ × ℕ)
unfolding hex4 surrogate
unicode bytes = elim (hex4 2 bytes) [
  | none ↦ none
  | some unit ↦
      if leb 0xD800 unit && leb unit 0xDBFF
      then surrogate unit bytes
      else if is_low unit
      then none
      else some (unit, 6)
]

-- The character that a simple escape stands for.
unfoldable pub simple_escape : ℕ → Option ℕ
simple_escape b =
    if b == 34 || (b == 92 || b == 47)
    then some b
    else if b == 98
    then some 8
    else if b == 102
    then some 12
    else if b == 110
    then some 10
    else if b == 114
    then some 13
    else if b == 116
    then some 9
    else none

-- `unescape`: the character and the bytes of its escape.
unfoldable pub unescape : Text → Option (ℕ × ℕ)
unfolding unicode simple_escape
unescape [] = none
unescape (b ∷ []) = none
unescape (b ∷ e ∷ bytes) =
    if b == 92
    then (if e == 117
        then unicode (b ∷ e ∷ bytes)
        else (elim (simple_escape e) [ none ↦ none | some c ↦ some (c, 2) ]))
    else none

pub record Decoded : Type 0 where
  pub text : Text
  pub origin : List ℕ

-- Bytes of an escape all map to its start, and copied bytes to themselves.
unfoldable pub same_origin : ℕ → Text → List ℕ
same_origin at bytes = map (λ b. at) bytes

unfoldable pub own_origin : ℕ → Text → List ℕ
own_origin at [] = []
own_origin at (b ∷ bytes) = at ∷ own_origin (suc at) bytes

-- What one round of the loop appends, and how many bytes it uses.
pub record Piece : Type 0 where
  pub bytes : Text
  pub origin : List ℕ
  pub used : ℕ

unfoldable pub piece : ℕ → ℕ → Text → Piece
unfolding unescape encode_utf8 char_len same_origin own_origin
piece at b text = elim (unescape (b ∷ text)) [
  | some (c, used) ↦ record {
    bytes = encode_utf8 c;
    origin = same_origin at (encode_utf8 c);
    used = used;
  }
  | none ↦
      let copied = take (char_len b) (b ∷ text) in
      record { bytes = copied; origin = own_origin at copied; used = length copied }
]

-- The loop over the text from byte `at` on; the fuel is the length of the text.
unfoldable pub decode_from : ℕ → ℕ → Text → Decoded
unfolding piece
decode_from zero at text = record { text = []; origin = at ∷ [] }
decode_from (suc fuel) at [] = record { text = []; origin = at ∷ [] }
decode_from (suc fuel) at (b ∷ text) =
    let p = piece at b text in
    let rest = decode_from fuel (at + p.used) (drop p.used (b ∷ text)) in
    record { text = p.bytes ++ rest.text; origin = p.origin ++ rest.origin }

-- `Decoded::new` of a text as it is.
unfoldable pub decode : Text → Option Decoded
unfolding decode_from
decode text =
    if leb u32_mod (length text + 1)
    then none
    else if contains 92 text
    then some (decode_from (length text) 0 text)
    else none

-- `Decoded::new`
unfoldable pub new_decoded : Text → Bool → Option Decoded
unfolding decode
new_decoded text false = decode text
new_decoded text true = if leb u32_mod (length text + 1) then none else (elim (decode (92 ∷ text)) [
  | none ↦ none
  | some view ↦ some (record view { origin = map (λ o. o - 1) view.origin })
])
