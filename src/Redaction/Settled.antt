-- ===== src/Redaction/Settled.antt =====
-- crates/mcp/src/secrets.rs, `Spans`: writing settled spans early does not change the text.
use kyora.Base.{
  ℕ, suc, ◌-◌, ◌≤◌, ◌<◌, ◌≡◌, refl, sym, ◌∙◌, ap, false, List, [], ◌∷◌, ◌++◌, Text, arith, leb, min,
  Bool-cases, inl, inr,
}
use package.kyora.Redaction.Spans.{
  Output, Spans, new_spans, reverse, absorb, emit, emit_all, split_settled, settle, push, push_all,
  finish, drop,
}
use package.kyora.Redaction.Merging.{floor, Chain, merged, merged-Chain}

-- Pushing without ever writing.
abbrev pub gather : List (ℕ × ℕ) → List (ℕ × ℕ) → List (ℕ × ℕ)
gather spans [] = spans
gather spans ((start, end) ∷ more) = gather (merged start end spans) more

-- Matches in order of their ends from `bound` on, each within the text and no longer than `reach`.
abbrev pub Ordered : ℕ → ℕ → ℕ → List (ℕ × ℕ) → Type 0
Ordered size reach bound [] = Unit {0}
Ordered size reach bound ((start, end) ∷ more) =
    (start < end)
    × (end ≤ size)
    × (end - reach ≤ start)
    × (bound ≤ end)
    × Ordered size reach end more

append_empty : (xs : List (ℕ × ℕ)) → xs ++ [] ≡ xs
append_empty [] = refl
append_empty (x ∷ xs) = ap (λ l. x ∷ l) (append_empty xs)

append_assoc : (xs ys zs : List (ℕ × ℕ)) → (xs ++ ys) ++ zs ≡ xs ++ (ys ++ zs)
append_assoc [] ys zs = refl
append_assoc (x ∷ xs) ys zs = ap (λ l. x ∷ l) (append_assoc xs ys zs)

reverse-append : (xs ys : List (ℕ × ℕ)) → reverse (xs ++ ys) ≡ reverse ys ++ reverse xs
reverse-append [] ys = sym (append_empty (reverse ys))
reverse-append (x ∷ xs) ys =
    rw (reverse-append xs ys) (append_assoc (reverse ys) (reverse xs) (x ∷ []))

reverse-reverse : (xs : List (ℕ × ℕ)) → reverse (reverse xs) ≡ xs
reverse-reverse [] = refl
reverse-reverse (x ∷ xs) =
    reverse-append (reverse xs) (x ∷ []) ∙ ap (λ l. x ∷ l) (reverse-reverse xs)

pub emit_all-append :
    (text : Text) (xs ys : List (ℕ × ℕ)) (o : Output)
    → emit_all text (xs ++ ys) o ≡ emit_all text ys (emit_all text xs o)
unfolding emit_all
emit_all-append text [] ys o = refl
emit_all-append text (x ∷ xs) ys o = emit_all-append text xs ys (emit text x o)

-- A split into settled spans and the others.
split-append :
    (bound : ℕ) (spans : List (ℕ × ℕ))
    → (split_settled bound spans).0 ++ (split_settled bound spans).1 ≡ spans
unfolding split_settled
split-append bound [] = refl
split-append bound ((start, last) ∷ spans) = ground (arith, split-append bound spans)

-- The floor of the settled spans, which come first in `spans`.
AllBefore : ℕ → List (ℕ × ℕ) → Type 0
AllBefore bound [] = Unit {0}
AllBefore bound ((start, last) ∷ spans) = (last < bound) × AllBefore bound spans

split-AllBefore :
    (bound : ℕ) (spans : List (ℕ × ℕ)) → AllBefore bound ((split_settled bound spans).0)
unfolding split_settled AllBefore
split-AllBefore bound [] = tt
split-AllBefore bound ((start, last) ∷ spans) = ground (arith, split-AllBefore bound spans)

floor-snoc :
    (bound : ℕ) (spans more : List (ℕ × ℕ))
    → AllBefore bound spans
    → floor more ≤ bound
    → floor (reverse spans ++ more) ≤ bound
unfolding AllBefore
floor-snoc bound [] more a h = h
floor-snoc bound ((start, last) ∷ spans) more a h =
    rw (append_assoc (reverse spans) ((start, last) ∷ []) more)
      (floor-snoc bound spans ((start, last) ∷ more) (a.1) (omega (arith, a.0)))

leb_above : (a b : ℕ) → suc b ≤ a → leb a b ≡ false
leb_above a b h = ground arith

floor-Chain :
    (pending written : List (ℕ × ℕ))
    → Chain (pending ++ written)
    → floor written ≤ floor (pending ++ written)
floor-Chain [] written c = omega arith
floor-Chain ((a, b) ∷ pending) written c =
    omega (arith, c.0, c.1, floor-Chain pending written (c.2))

-- Spans above the floor of others do not touch those.
absorb-append :
    (start : ℕ) (pending written : List (ℕ × ℕ))
    → floor written ≤ start
    → Chain (pending ++ written)
    → ((absorb start (pending ++ written)).0 ≡ (absorb start pending).0)
      × ((absorb start (pending ++ written)).1 ≡ (absorb start pending).1 ++ written)
unfolding absorb
absorb-append start [] [] h c = (refl, refl)
absorb-append start [] ((earlier, last) ∷ written) h c = rw (leb_above start last h) (refl, refl)
absorb-append start ((earlier, last) ∷ pending) written h c = elim (Bool-cases (leb start last)) [
  | inl e ↦
      let low = floor-Chain pending written (c.2) in
      rw e (absorb-append (min start earlier) pending written (omega (arith, c.1, low)) (c.2))
  | inr e ↦ rw e (refl, refl)
]

module _ (text : Text) (from reach : ℕ) where
  abbrev blank : Output
  blank = record { out = []; copied = from }

  -- The spans that were gathered are those that are pending and, below them, those that were
  -- written; `last` is the end of the latest match.
  record Sim (spans : List (ℕ × ℕ)) (last : ℕ) (s : Spans) : Type 0 where
    written : List (ℕ × ℕ)
    parts : spans ≡ s.pending ++ written
    output : s.output ≡ emit_all text (reverse written) blank
    low : floor written ≤ last - reach
    chain : Chain spans
    top : floor spans ≤ suc last

  merged-append :
      (start end : ℕ) (pending written : List (ℕ × ℕ))
      → floor written ≤ start
      → Chain (pending ++ written)
      → merged start end (pending ++ written) ≡ merged start end pending ++ written
  merged-append start end pending written h c =
      let (first, rest) = absorb-append start pending written h c in rw (first, rest) refl

  settle-Sim :
      (spans : List (ℕ × ℕ)) (end : ℕ) (o : Output) (pending written : List (ℕ × ℕ))
      → spans ≡ pending ++ written
      → o ≡ emit_all text (reverse written) blank
      → floor written ≤ end - reach
      → Chain spans
      → floor spans ≤ suc end
      → Sim spans end (settle text (end - reach) (record { output = o; pending = pending }))
  unfolding settle
  settle-Sim spans end o pending written parts output low chain top =
      let bound = end - reach in
      let settled = (split_settled bound (reverse pending)).0 in
      let left = (split_settled bound (reverse pending)).1 in
      let whole : settled ++ left ≡ reverse pending = split-append bound (reverse pending) in
      let back : reverse (settled ++ left) ≡ pending = ap reverse whole ∙ reverse-reverse pending in
      let order = reverse-append (reverse settled) written in
      let same = reverse-reverse settled in
      let again = emit_all-append text (reverse written) settled blank in
      record {
        written = reverse settled ++ written;
        parts =
            parts
            ∙ (ap (λ l. l ++ written) (sym back ∙ reverse-append settled left)
                ∙ append_assoc (reverse left) (reverse settled) written);
        output =
            ap (emit_all text settled) output
            ∙ (sym again
                ∙ ap (λ l. emit_all text l blank)
                    (sym (order ∙ ap (λ l. reverse written ++ l) same)));
        low = floor-snoc bound settled written (split-AllBefore bound (reverse pending)) low;
        chain = chain;
        top = top;
      }

  push-Sim :
      (spans : List (ℕ × ℕ)) (last start end : ℕ) (s : Spans)
      → start < end
      → end - reach ≤ start
      → last ≤ end
      → Sim spans last s
      → Sim (merged start end spans) end (push text reach s (start, end))
  unfolding push
  push-Sim spans last start end s long near later k =
      let below : floor k.written ≤ start = omega (arith, k.low) in
      let chain : Chain (s.pending ++ k.written) = rw (sym k.parts) (k.chain) in
      let joined = merged-append start end s.pending k.written below chain in
      settle-Sim (merged start end spans) end s.output (merged start end s.pending) k.written
        (ap (merged start end) k.parts ∙ joined) k.output (omega (arith, k.low))
        (merged-Chain start end spans long (omega (arith, k.top)) k.chain) (omega arith)

  push_all-Sim :
      (spans : List (ℕ × ℕ)) (size last : ℕ) (more : List (ℕ × ℕ)) (s : Spans)
      → Ordered size reach last more
      → Sim spans last s
      → (end : ℕ) × Sim (gather spans more) end (push_all text reach s more)
  unfolding push_all
  push_all-Sim spans size last [] s o k = (last, k)
  push_all-Sim spans size last ((start, end) ∷ more) s o k =
      push_all-Sim (merged start end spans) size end more (push text reach s (start, end)) (o.4)
        (push-Sim spans last start end s (o.0) (o.2) (o.3) k)

  -- Writing early changes nothing: the result is that of writing all gathered spans at the end.
  pub finish-gather :
      (size : ℕ) (more : List (ℕ × ℕ))
      → Ordered size reach 0 more
      → (let o = emit_all text (reverse (gather [] more)) blank in o.out ++ drop o.copied text)
        ≡ finish text (push_all text reach (new_spans from) more)
  unfolding finish new_spans emit_all
  finish-gather size more o =
      let start : Sim [] 0 (new_spans from) = record {
        written = [];
        parts = refl;
        output = refl;
        low = omega arith;
        chain = tt;
        top = omega arith;
      } in
      let (end, k) = push_all-Sim [] size 0 more (new_spans from) o start in
      let s = push_all text reach (new_spans from) more in
      let all : emit_all text (reverse (gather [] more)) blank
          ≡ emit_all text (reverse s.pending) s.output =
        ap (λ l. emit_all text (reverse l) blank) k.parts
        ∙ (ap (λ l. emit_all text l blank) (reverse-append s.pending k.written)
            ∙ (emit_all-append text (reverse k.written) (reverse s.pending) blank
                ∙ ap (emit_all text (reverse s.pending)) (sym k.output))) in
      ap (λ o. o.out ++ drop o.copied text) all
