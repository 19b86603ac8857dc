-- ===== src/Redaction/Spans.antt =====
-- crates/mcp/src/secrets.rs, `Spans`: the redacted text, built from matches that arrive in order of
-- their ends.
use kyora.Base.{
  ℕ, zero, suc, ◌-◌, min, max, List, [], ◌∷◌, ◌++◌, Text, codes, ltb, leb, if◌then◌else◌,
}

-- REDACTED
abbrev pub redacted : Text
redacted = codes "[redacted]"

abbrev pub take : ℕ → Text → Text
take n [] = []
take zero (b ∷ t) = []
take (suc n) (b ∷ t) = b ∷ take n t

abbrev pub drop : ℕ → Text → Text
drop n [] = []
drop zero (b ∷ t) = b ∷ t
drop (suc n) (b ∷ t) = drop n t

-- `&text[a..b]`
abbrev pub slice : ℕ → ℕ → Text → Text
slice a b text = take (b - a) (drop a text)

abbrev pub reverse : List (ℕ × ℕ) → List (ℕ × ℕ)
reverse [] = []
reverse (x ∷ xs) = reverse xs ++ x ∷ []

-- What is written, and the byte up to which the text has been copied.
pub record Output : Type 0 where
  pub out : Text
  pub copied : ℕ

-- The spans that may still grow; the last of them comes first.
pub record Spans : Type 0 where
  pub output : Output
  pub pending : List (ℕ × ℕ)

-- `Spans::new`
unfoldable pub new_spans : ℕ → Spans
new_spans from = record { output = record { out = []; copied = from }; pending = [] }

-- The spans that a match from `start` on touches are popped: the start of all of them, and the rest.
unfoldable pub absorb : ℕ → List (ℕ × ℕ) → ℕ × List (ℕ × ℕ)
absorb start [] = (start, [])
absorb start ((earlier, last) ∷ pending) =
    let popped = absorb (min start earlier) pending in
    if leb start last then popped else (start, (earlier, last) ∷ pending)

-- `Spans::emit`
unfoldable pub emit : Text → ℕ × ℕ → Output → Output
emit text (start, end) o =
    if ltb o.copied end
    then record {
      out = o.out ++ (slice o.copied (max start o.copied) text ++ redacted);
      copied = end;
    }
    else o

unfoldable pub emit_all : Text → List (ℕ × ℕ) → Output → Output
unfolding emit
emit_all text [] o = o
emit_all text (span ∷ spans) o = emit_all text spans (emit text span o)

-- `take_while(|(_, last)| *last < bound)` and what is left, from the first span on.
unfoldable pub split_settled : ℕ → List (ℕ × ℕ) → List (ℕ × ℕ) × List (ℕ × ℕ)
split_settled bound [] = ([], [])
split_settled bound ((start, last) ∷ spans) =
    let (settled, left) = split_settled bound spans in
    if ltb last bound then ((start, last) ∷ settled, left) else ([], (start, last) ∷ spans)

-- The settled spans are written.
unfoldable pub settle : Text → ℕ → Spans → Spans
unfolding split_settled emit_all
settle text bound s =
    let (settled, left) = split_settled bound (reverse s.pending) in
    record { output = emit_all text settled s.output; pending = reverse left }

-- `Spans::push`
unfoldable pub push : Text → ℕ → Spans → ℕ × ℕ → Spans
unfolding absorb settle
push text reach s (start, end) =
    let (first, pending) = absorb start s.pending in
    settle text (end - reach) (record s { pending = (first, end) ∷ pending })

unfoldable pub push_all : Text → ℕ → Spans → List (ℕ × ℕ) → Spans
unfolding push
push_all text reach s [] = s
push_all text reach s (span ∷ spans) = push_all text reach (push text reach s span) spans

-- `Spans::finish`
unfoldable pub finish : Text → Spans → Text
unfolding emit_all
finish text s = let o = emit_all text (reverse s.pending) s.output in o.out ++ drop o.copied text
