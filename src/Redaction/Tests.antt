-- ===== src/Redaction/Tests.antt =====
-- crates/mcp/src/secrets.rs: tests and examples.
use kyora.Base.{ℕ, ◌≡◌, refl, false, true, some, List, [], ◌∷◌, Text, codes, arith}
use package.kyora.Redaction.Spans.{new_spans, push_all, finish, drop}
use package.kyora.Redaction.Escapes.{Decoded, new_decoded}
use package.kyora.Redaction.Merging.{in_spans}
use package.kyora.Redaction.Mask.{mask}
use package.kyora.Redaction.Settled.{Ordered}
use package.kyora.Redaction.Redacting.{finish-mask}
use package.kyora.Redaction.Views.{Mapped, new_decoded-Mapped}

-- "abcdef" and "defghi" overlap.
abbrev echo : Text
echo = codes "x abcdefghi y abcdef"

abbrev overlapping : List (ℕ × ℕ)
overlapping = (2, 8) ∷ (5, 11) ∷ (14, 20) ∷ []

echo_redacted :
    finish echo (push_all echo 6 (new_spans 0) overlapping) ≡ codes "x [redacted] y [redacted]"
unfolding finish push_all new_spans
echo_redacted = refl

overlapping_in_order : Ordered 20 6 0 overlapping
overlapping_in_order = (
  omega arith,
  omega arith,
  omega arith,
  omega arith,
  (
    omega arith,
    omega arith,
    omega arith,
    omega arith,
    (omega arith, omega arith, omega arith, omega arith, tt),
  ),
)

finish-mask_example :
    finish echo (push_all echo 6 (new_spans 3) overlapping)
    ≡ mask (λ i. in_spans i overlapping) false 3 (drop 3 echo)
finish-mask_example = finish-mask echo 3 6 overlapping overlapping_in_order

-- `a\u0041\n`
abbrev escaped : Text
escaped = 97 ∷ 92 ∷ 117 ∷ 48 ∷ 48 ∷ 52 ∷ 49 ∷ 92 ∷ 110 ∷ []

abbrev escaped_view : Decoded
escaped_view = record { text = 97 ∷ 65 ∷ 10 ∷ []; origin = 0 ∷ 1 ∷ 7 ∷ 9 ∷ [] }

escaped_decodes : new_decoded escaped false ≡ some escaped_view
unfolding new_decoded
escaped_decodes = refl

-- The cut text `n\u0041`: its first byte may end an escape.
abbrev cut_text : Text
cut_text = 110 ∷ 92 ∷ 117 ∷ 48 ∷ 48 ∷ 52 ∷ 49 ∷ []

abbrev cut_view : Decoded
cut_view = record { text = 10 ∷ 65 ∷ []; origin = 0 ∷ 1 ∷ 7 ∷ [] }

cut_decodes : new_decoded cut_text true ≡ some cut_view
unfolding new_decoded
cut_decodes = refl

new_decoded-Mapped_example : Mapped cut_text true cut_view
new_decoded-Mapped_example = new_decoded-Mapped cut_text true cut_view cut_decodes
