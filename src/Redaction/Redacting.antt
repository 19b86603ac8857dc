-- ===== src/Redaction/Redacting.antt =====
-- crates/mcp/src/secrets.rs, `Spans`: matches that arrive in order of their ends are masked.
use kyora.Base.{
  ℕ, suc, ◌≤◌, ◌≡◌, refl, sym, ◌∙◌, ap, Bool, true, false, ◌||◌, List, [], ◌∷◌, ◌++◌, Text, arith,
  leb, min, length, Bool-cases, inl, inr,
}
use package.kyora.Redaction.Spans.{new_spans, absorb, push_all, finish, drop}
use package.kyora.Redaction.Merging.{
  covers, in_spans, floor, Chain, merged, merged-Chain, merged-in_spans, above_floor,
}
use package.kyora.Redaction.Mask.{mask, mask_rest}
use package.kyora.Redaction.Settled.{gather, Ordered, finish-gather}
use package.kyora.Redaction.Masking.{Within, written, copied_at, written-resumed}

merged-Within :
    (size start end : ℕ) (spans : List (ℕ × ℕ))
    → end ≤ size
    → Within size spans
    → Within size (merged start end spans)
unfolding absorb
merged-Within size start end [] h w = (h, tt)
merged-Within size start end ((earlier, last) ∷ spans) h w = elim (Bool-cases (leb start last)) [
  | inl e ↦ rw e (merged-Within size (min start earlier) end spans h (w.1))
  | inr e ↦ rw e (h, w)
]

-- What the gathered spans are.
record Gathered (size : ℕ) (spans more all : List (ℕ × ℕ)) : Type 0 where
  chain : Chain all
  within : Within size all
  same : (i : ℕ) → in_spans i all ≡ (in_spans i more || in_spans i spans)

gather-Gathered :
    (size reach last : ℕ) (spans more : List (ℕ × ℕ))
    → Ordered size reach last more
    → Chain spans
    → floor spans ≤ suc last
    → Within size spans
    → Gathered size spans more (gather spans more)
gather-Gathered size reach last spans [] o c f w = record {
  chain = c;
  within = w;
  same = λ i. refl;
}
gather-Gathered size reach last spans ((start, end) ∷ more) o c f w =
    let low : floor spans ≤ suc end = omega (arith, o.3) in
    let k =
      gather-Gathered size reach end (merged start end spans) more (o.4)
        (merged-Chain start end spans (o.0) low c) (omega arith)
        (merged-Within size start end spans (o.1) w) in
    record {
      chain = k.chain;
      within = k.within;
      same = λ i.
          or_move (covers i (start, end)) (in_spans i more) (in_spans i spans) (k.same i)
            (merged-in_spans i start end spans (o.0) low c);
    }
  where
    or_move : (a b d : Bool) {x y : Bool} → x ≡ (b || y) → y ≡ (a || d) → x ≡ ((a || b) || d)
    or_move true true d e f = ground arith
    or_move true false d e f = ground arith
    or_move false true d e f = ground arith
    or_move false false d e f = ground arith

-- For matches that arrive in order of their ends, are not empty, end within the text and are no
-- longer than the reach: the text that is built from byte `from` on is the rest of the text from
-- there, in which every longest run of bytes that some match covers is replaced by one placeholder,
-- and every other byte is kept. So writing early and merging lose no match.
pub finish-mask :
    (text : Text) (from reach : ℕ) (matches : List (ℕ × ℕ))
    → Ordered (length text) reach 0 matches
    → finish text (push_all text reach (new_spans from) matches)
      ≡ mask (λ i. in_spans i matches) false from (drop from text)
finish-mask text from reach matches o =
    let all = gather [] matches in
    let k = gather-Gathered (length text) reach 0 [] matches o tt (omega arith) tt in
    let c = λ (i : ℕ). in_spans i matches in
    let same = λ (i : ℕ). or_false (in_spans i matches) (k.same i) in
    let w = written-resumed text from c all k.chain k.within (λ j p. sym (same j)) in
    let at = copied_at text from all k.chain in
    let clear =
      mask_rest c (written text from all).copied (drop (written text from all).copied text)
        (λ j p. sym (same j) ∙ above_floor j all k.chain (omega (arith, at, p))) in
    sym (finish-gather text from reach (length text) matches o)
    ∙ (ap (λ t. (written text from all).out ++ t) (sym clear) ∙ w)
  where
    or_false : (b : Bool) {x : Bool} → x ≡ (b || false) → x ≡ b
    or_false true e = e
    or_false false e = e
