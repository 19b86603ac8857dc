-- ===== src/Redaction/Masking.antt =====
-- crates/mcp/src/secrets.rs, `Spans`: the text that is built is the text with every covered run masked.
use kyora.Base.{
  ℕ, suc, ◌+◌, ◌-◌, ◌≤◌, ◌<◌, max, ◌≡◌, refl, ◌∙◌, ap, Bool, true, false, List, [], ◌∷◌, ◌++◌, Text,
  arith, ltb, length, Bool-cases, inl, inr,
}
use package.kyora.Redaction.Spans.{redacted, Output, reverse, emit, emit_all, take, drop, slice}
use package.kyora.Redaction.Merging.{in_spans, floor, Chain, above_floor}
use package.kyora.Redaction.Mask.{mask, mask_leave, mask_clear, mask_run, drop-drop, length-drop}
use package.kyora.Redaction.Settled.{emit_all-append}

-- All spans end within the text.
abbrev pub Within : ℕ → List (ℕ × ℕ) → Type 0
Within size [] = Unit {0}
Within size ((start, last) ∷ spans) = (last ≤ size) × Within size spans

append_assoc : (xs ys zs : Text) → (xs ++ ys) ++ zs ≡ xs ++ (ys ++ zs)
append_assoc [] ys zs = refl
append_assoc (x ∷ xs) ys zs = ap (λ l. x ∷ l) (append_assoc xs ys zs)

module _ (text : Text) (from : ℕ) where
  abbrev blank : Output
  blank = record { out = []; copied = from }

  abbrev pub written : List (ℕ × ℕ) → Output
  written spans = emit_all text (reverse spans) blank

  written_step :
      (start last : ℕ) (spans : List (ℕ × ℕ))
      → written ((start, last) ∷ spans) ≡ emit text (start, last) (written spans)
  unfolding emit_all
  written_step start last spans = emit_all-append text (reverse spans) ((start, last) ∷ []) blank

  module _ (c : ℕ → Bool) where
    -- What is written and what is still to be masked.
    abbrev pub resumed : Output → Text
    resumed o = o.out ++ mask c false o.copied (drop o.copied text)

    -- Copying up to a span and replacing it.
    span_step :
        (copied start last : ℕ)
        → copied ≤ start
        → start < last
        → last ≤ length text
        → ((j : ℕ) → copied ≤ j → j < start → c j ≡ false)
        → ((j : ℕ) → start ≤ j → j < last → c j ≡ true)
        → c last ≡ false
        → mask c false copied (drop copied text)
          ≡ slice copied start text ++ (redacted ++ mask c false last (drop last text))
    span_step copied start last h long fits clear run over =
        let gap = start - copied in
        let size = last - start - 1 in
        let a : gap + copied ≡ start = omega arith in
        let b : suc size + start ≡ last = omega arith in
        let first = mask_clear c gap copied (drop copied text) (λ j p q. clear j p (omega arith)) in
        let second =
          mask_run c size start (drop start text) (length-drop start text (omega arith))
            (λ j p q. run j p (omega arith)) in
        let third = mask_leave c last (drop last text) over in
        let at = drop-drop gap copied text in
        let onto = drop-drop (suc size) start text in
        rw (first, at, a)
          (ap (λ t. take gap (drop copied text) ++ t) (rw (second, onto, b) (rw third refl)))

    emit-resumed :
        (start last : ℕ) (o : Output)
        → start < last
        → last ≤ length text
        → ((j : ℕ) → o.copied ≤ j → j < start → c j ≡ false)
        → ((j : ℕ) → start ≤ j → j < last → c j ≡ true)
        → c last ≡ false
        → resumed (emit text (start, last) o) ≡ resumed o
    unfolding emit
    emit-resumed start last o long fits clear run over = elim (Bool-cases (ltb o.copied last)) [
      | inr e ↦ rw e refl
      | inl e ↦
          let below : o.copied < last = ground (arith, e) in
          let at = max start o.copied in
          let step =
            span_step o.copied at last (omega arith) (omega arith) fits
              (λ j p q. clear j p (omega arith)) (λ j p q. run j (omega arith) q) over in
          rw (e, step)
            (append_assoc o.out (slice o.copied at text ++ redacted)
                (mask c false last (drop last text))
              ∙ ap (λ t. o.out ++ t)
                  (append_assoc (slice o.copied at text) redacted
                    (mask c false last (drop last text))))
    ]

  emit-copied :
      (start last : ℕ) (o : Output) → (emit text (start, last) o).copied ≡ max o.copied last
  unfolding emit
  emit-copied start last o = ground arith

  pub copied_at :
      (spans : List (ℕ × ℕ)) → Chain spans → (written spans).copied ≡ max from (floor spans - 1)
  unfolding emit_all
  copied_at [] h = omega arith
  copied_at ((start, last) ∷ spans) h =
      let e = ap (λ o. o.copied) (written_step start last spans) in
      let k = emit-copied start last (written spans) in
      omega (arith, e, k, copied_at spans (h.2), h.0, h.1)

  -- For bytes that are covered as the spans say, below their end: what is written stands for the
  -- masked text so far.
  pub written-resumed :
      (c : ℕ → Bool) (spans : List (ℕ × ℕ))
      → Chain spans
      → Within (length text) spans
      → ((j : ℕ) → j < floor spans → c j ≡ in_spans j spans)
      → resumed c (written spans) ≡ mask c false from (drop from text)
  unfolding emit_all
  written-resumed c [] h w agree = refl
  written-resumed c ((start, last) ∷ spans) h w agree =
      let o = written spans in
      let at = copied_at spans (h.2) in
      let before = written-resumed c spans (h.2) (w.1) (λ j p.
        agree j (omega (arith, h.0, h.1)) ∙ outside_last j start last spans (omega (arith, h.1))) in
      let clear = λ (j : ℕ) (p : o.copied ≤ j) (q : j < start).
        agree j (omega (arith, h.0))
        ∙ (outside_last j start last spans q ∙ above_floor j spans (h.2) (omega (arith, at))) in
      let run = λ (j : ℕ) (p : start ≤ j) (q : j < last).
        agree j (omega arith) ∙ inside_last j start last spans p q in
      let over =
        agree last (omega arith) ∙ above_floor last ((start, last) ∷ spans) h (omega arith) in
      ap (resumed c) (written_step start last spans)
      ∙ (emit-resumed c start last o (h.0) (w.0) clear run over ∙ before)
    where
      outside_last :
          (j start last : ℕ) (spans : List (ℕ × ℕ))
          → j < start
          → in_spans j ((start, last) ∷ spans) ≡ in_spans j spans
      outside_last j start last spans h = ground arith

      inside_last :
          (j start last : ℕ) (spans : List (ℕ × ℕ))
          → start ≤ j
          → j < last
          → in_spans j ((start, last) ∷ spans) ≡ true
      inside_last j start last spans h k = ground arith
