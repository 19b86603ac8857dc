-- ===== src/Sse/Lines.antt =====
-- crates/providers/src/anthropic/sse.rs, read without a parser's state: the lines of a whole stream,
-- found by splitting it, and what they say one after the other.
use mathlib.Core.List.{append_assoc, append-nil}
use kyora.Base.{
  ℕ, ◌≡◌, ◌≢◌, refl, ◌∙◌, sym, ap, Bool, true, false, ◌&&◌, List, [], ◌∷◌, ◌++◌, ◌==◌,
  if◌then◌else◌, ok, err, panic, Bool-cases, inl, inr, arith, Option-cases,
}
use kyora.Sse.{
  Parser, Event, Run, followed_by, accept, break_line, end_line, interpret, dispatch, set_field,
  feed, new, strip, from_utf8,
}
use package.kyora.Sse.Feeding.{
  unix_lines, without_skip, with_skip, prepend, prepend-followed_by, prepend_nil, forget,
  feed-unix_lines,
}

-- A byte before the first line, or before what is left when there is no line.
unfoldable pub attach : List ℕ → List (List ℕ) × List ℕ → List (List ℕ) × List ℕ
attach bytes ([], left) = ([], bytes ++ left)
attach bytes (line ∷ lines, left) = ((bytes ++ line) ∷ lines, left)

-- The lines that a LF ends, and the bytes after the last LF.
unfoldable pub split_lf : List ℕ → List (List ℕ) × List ℕ
unfolding attach
split_lf [] = ([], [])
split_lf (b ∷ bytes) =
    let (lines, left) = split_lf bytes in
    if b == 10 then ([] ∷ lines, left) else attach (b ∷ []) (lines, left)

-- What the lines say, in order, from the state of a parser.
unfoldable pub read : Parser → List (List ℕ) → Run
unfolding end_line
read p [] = ok (p, [])
read p (line ∷ lines) = followed_by (end_line (record p { line = line })) (λ q. read q lines)

-- And the bytes that are left are held for the next line.
unfoldable pub read_split : Parser → List (List ℕ) × List ℕ → Run
unfolding read
read_split p (lines, left) = followed_by (read p lines) (λ q. ok (record q { line = left }, []))

-- The bytes of a stream, by the lines that CR LF, CR or LF ends.
abbrev pub read_stream : Parser → List ℕ → Run
read_stream p bytes = read_split p (split_lf (unix_lines false bytes))

-- No byte is a CR.
abbrev pub Plain : List ℕ → Type 0
Plain [] = Unit {0}
Plain (b ∷ bytes) = (b == 13 ≡ false) × Plain bytes

unix_lines-Plain : (cr : Bool) (bytes : List ℕ) → Plain (unix_lines cr bytes)
unfolding unix_lines
unix_lines-Plain cr [] = tt
unix_lines-Plain cr (b ∷ bytes) = elim (Bool-cases (cr && b == 10)) [
  | inl pair ↦ rw pair (unix_lines-Plain (b == 13) bytes)
  | inr single ↦ elim (Bool-cases (b == 13)) [
    | inl is_cr ↦ rw (single, is_cr) (refl, unix_lines-Plain true bytes)
    | inr other ↦ rw (single, other, other) (refl, unix_lines-Plain false bytes)
  ]
]

attach_nil : (x : List (List ℕ) × List ℕ) → attach [] x ≡ x
unfolding attach
attach_nil ([], left) = refl
attach_nil (line ∷ lines, left) = refl

attach-append :
    (a b : List ℕ) (x : List (List ℕ) × List ℕ) → attach a (attach b x) ≡ attach (a ++ b) x
unfolding attach
attach-append a b ([], left) = ap (λ r. ([], r)) (sym (append_assoc a b left))
attach-append a b (line ∷ lines, left) = ap (λ r. (r ∷ lines, left)) (sym (append_assoc a b line))

-- The bytes that a parser holds are overwritten.
read_split-held :
    (p : Parser) (held : List ℕ) (x : List (List ℕ) × List ℕ)
    → read_split (record p { line = held }) x ≡ read_split p x
unfolding read_split read
read_split-held p held ([], left) = refl
read_split-held p held (line ∷ lines, left) = refl

-- The end of a line leaves no line and skips nothing.
interpret-line :
    (p : Parser) (text : List ℕ)
    → ((interpret p text).0.line ≡ p.line) × ((interpret p text).0.skip_lf ≡ p.skip_lf)
unfolding interpret dispatch set_field
interpret-line p [] = (refl, refl)
interpret-line p (c ∷ s) = (ground arith, ground arith)

end_line-line :
    (p q : Parser) (events : List Event)
    → end_line p ≡ ok (q, events)
    → (q.line ≡ []) × (q.skip_lf ≡ p.skip_lf)
unfolding end_line
end_line-line p q events h = elim (Option-cases (from_utf8 p.line)) [
  | inl bad ↦ cc (simp bad at h)
  | inr (text, good) ↦
      let start = record p { line = []; first_line = false } in
      let shown = if p.first_line then strip 0xFEFF text else text in
      let same : interpret start shown ≡ (q, events) = cc (simp good at h) in
      let k = interpret-line start shown in (cc (k.0, same), cc (k.1, same))
]

-- A line that ends, and the rest of the stream.
after_line :
    (m : Run) (bytes : List ℕ) (x : List (List ℕ) × List ℕ)
    → ((q : Parser) (events : List Event)
        → m ≡ ok (q, events)
        → (q.line ≡ []) × (q.skip_lf ≡ false))
    → ((q : Parser) → feed (without_skip q) bytes ≡ read_split (without_skip q) (attach q.line x))
    → followed_by (with_skip false m) (λ q. feed q bytes)
      ≡ followed_by (followed_by m (λ q. read q x.0)) (λ q. ok (record q { line = x.1 }, []))
unfolding with_skip without_skip prepend read_split
after_line (ok (p, events)) bytes (lines, left) clean ih =
    let k = clean p events refl in
    let same : without_skip p ≡ p = ap (λ b. record p { skip_lf = b }) (sym (k.1)) in
    let read_on : feed (without_skip p) bytes ≡ read_split p (lines, left) =
      ih p
      ∙ ap (λ held. read_split (without_skip p) (attach held (lines, left))) (k.0)
      ∙ ap (read_split (without_skip p)) (attach_nil (lines, left))
      ∙ ap (λ q. read_split q (lines, left)) same in
    ap (prepend events) read_on
    ∙ sym (prepend-followed_by events (read p lines) (λ q. ok (record q { line = left }, [])))
after_line (err e) bytes x clean ih = refl
after_line panic bytes x clean ih = refl

-- Feeding bytes without a CR reads their lines, the first of which begins with what is held.
feed-read_split :
    (p : Parser) (bytes : List ℕ)
    → Plain bytes
    → feed (without_skip p) bytes ≡ read_split (without_skip p) (attach p.line (split_lf bytes))
unfolding feed split_lf attach read_split read accept break_line with_skip prepend without_skip
feed-read_split p [] plain = rw (append-nil p.line) refl
feed-read_split p (b ∷ bytes) plain = elim (Bool-cases (b == 10)) [
  | inl lf ↦
      rw (plain.0, lf, append-nil p.line)
        (after_line (end_line (without_skip p)) bytes (split_lf bytes)
          (λ q events h. end_line-line (without_skip p) q events h)
          (λ q. feed-read_split q bytes (plain.1)))
  | inr other ↦
      let held = record p { line = p.line ++ b ∷ [] } in
      rw (plain.0, other)
        (prepend_nil (feed (without_skip held) bytes)
          ∙ feed-read_split held bytes (plain.1)
          ∙ read_split-held (without_skip p) held.line (attach held.line (split_lf bytes))
          ∙ ap (read_split (without_skip p)) (sym (attach-append p.line (b ∷ []) (split_lf bytes))))
]

-- A new parser reads the lines of the stream.
pub feed-read_stream : (bytes : List ℕ) → forget (feed new bytes) ≡ read_stream new bytes
unfolding without_skip
feed-read_stream bytes =
    sym (feed-unix_lines new bytes)
    ∙ feed-read_split new (unix_lines false bytes) (unix_lines-Plain false bytes)
    ∙ ap (read_split new) (attach_nil (split_lf (unix_lines false bytes)))

followed_by-panic :
    (m : Run) (f : Parser → Run)
    → m ≢ panic
    → ((p : Parser) → f p ≢ panic)
    → followed_by m f ≢ panic
unfolding prepend
followed_by-panic (ok (p, events)) f sound next e = go (f p) refl e
  where
    go : (n : Run) → f p ≡ n → prepend events n ≢ panic
    go (ok out) h k = cc k
    go (err e) h k = cc k
    go panic h k = next p h
followed_by-panic (err x) f sound next e = cc e
followed_by-panic panic f sound next e = sound refl

accept-panic : (p : Parser) (byte : ℕ) → accept p byte ≢ panic
unfolding accept break_line end_line
accept-panic p byte e = elim (Option-cases (from_utf8 p.line)) [
  | inl bad ↦ ground arith
  | inr (text, good) ↦ ground arith
]

-- No byte makes the framing panic.
pub feed-panic : (p : Parser) (bytes : List ℕ) → feed p bytes ≢ panic
unfolding feed
feed-panic p [] e = cc e
feed-panic p (b ∷ bytes) e =
    followed_by-panic (accept p b) (λ q. feed q bytes) (accept-panic p b) (λ q. feed-panic q bytes)
      e
