-- ===== src/Sse/Feeding.antt =====
-- crates/providers/src/anthropic/sse.rs, `Parser::feed` on a stream in two parts, and its line ends.
use mathlib.Core.List.{append_assoc}
use kyora.Base.{
  ℕ, ◌≡◌, refl, ◌∙◌, sym, ap, Bool, true, false, ◌&&◌, List, [], ◌∷◌, ◌++◌, ◌==◌, if◌then◌else◌,
  Outcome, ok, err, panic, ◌>>=◌, >>=-assoc, Bool-cases, inl, inr, arith,
}
use kyora.Provider.{ProviderError}
use kyora.Sse.{Parser, Event, Run, followed_by, accept, break_line, end_line, feed, new}

unfoldable pub prepend : List Event → Run → Run
prepend events m = m >>= λ (next : Parser × List Event). ok (next.0, events ++ next.1)

prepend-append : (a b : List Event) (m : Run) → prepend (a ++ b) m ≡ prepend a (prepend b m)
unfolding prepend
prepend-append a b (ok (p, events)) = rw (append_assoc a b events) refl
prepend-append a b (err e) = refl
prepend-append a b panic = refl

pub prepend-followed_by :
    (events : List Event) (m : Run) (g : Parser → Run)
    → followed_by (prepend events m) g ≡ prepend events (followed_by m g)
unfolding prepend
prepend-followed_by events (ok (p, more)) g = prepend-append events more (g p)
prepend-followed_by events (err e) g = refl
prepend-followed_by events panic g = refl

followed_by_assoc :
    (m : Run) (f g : Parser → Run)
    → followed_by (followed_by m f) g ≡ followed_by m (λ p. followed_by (f p) g)
unfolding prepend
followed_by_assoc (ok (p, events)) f g = prepend-followed_by events (f p) g
followed_by_assoc (err e) f g = refl
followed_by_assoc panic f g = refl

followed_by_cong :
    (m : Run) (f g : Parser → Run) → ((p : Parser) → f p ≡ g p) → followed_by m f ≡ followed_by m g
unfolding prepend
followed_by_cong (ok (p, events)) f g h = ap (prepend events) (h p)
followed_by_cong (err e) f g h = refl
followed_by_cong panic f g h = refl

pub prepend_nil : (m : Run) → prepend [] m ≡ m
unfolding prepend
prepend_nil (ok (p, events)) = refl
prepend_nil (err e) = refl
prepend_nil panic = refl

pub feed-append :
    (p : Parser) (a b : List ℕ) → feed p (a ++ b) ≡ followed_by (feed p a) (λ q. feed q b)
unfolding feed prepend
feed-append p [] b = sym (prepend_nil (feed p b))
feed-append p (x ∷ a) b =
    followed_by_cong (accept p x) (λ q. feed q (a ++ b))
      (λ q. followed_by (feed q a) (λ r. feed r b)) (λ q. feed-append q a b)
    ∙ sym (followed_by_assoc (accept p x) (λ q. feed q a) (λ q. feed q b))

-- Every CR LF and every lone CR as a LF; `cr` tells whether the byte before was a CR.
unfoldable pub unix_lines : Bool → List ℕ → List ℕ
unix_lines cr [] = []
unix_lines cr (b ∷ bytes) =
    let rest = unix_lines (b == 13) bytes in
    if cr && b == 10 then rest else (if b == 13 then 10 else b) ∷ rest

abbrev pub events_of : Run → Outcome ProviderError (List Event)
events_of m = m >>= λ (next : Parser × List Event). ok next.1

unfoldable pub without_skip : Parser → Parser
without_skip p = record p { skip_lf = false }

unfoldable pub forget : Run → Run
forget m = m >>= λ (next : Parser × List Event). ok (without_skip next.0, next.1)

forget-prepend :
    (events : List Event) (m : Run) → forget (prepend events m) ≡ prepend events (forget m)
unfolding forget prepend
forget-prepend events (ok (p, more)) = refl
forget-prepend events (err e) = refl
forget-prepend events panic = refl

unfoldable pub with_skip : Bool → Run → Run
with_skip cr m = m >>= λ (next : Parser × List Event). ok (record (next.0) { skip_lf = cr }, next.1)

after_break :
    (m : Run) (cr : Bool) (bytes : List ℕ)
    → ((q : Parser) → feed (without_skip q) (unix_lines q.skip_lf bytes) ≡ forget (feed q bytes))
    → followed_by (with_skip false m) (λ q. feed q (unix_lines cr bytes))
      ≡ forget (followed_by (with_skip cr m) (λ q. feed q bytes))
unfolding with_skip without_skip prepend forget
after_break (ok (p, events)) cr bytes ih =
    ap (prepend events) (ih (record p { skip_lf = cr }))
    ∙ sym (forget-prepend events (feed (record p { skip_lf = cr }) bytes))
after_break (err e) cr bytes ih = refl
after_break panic cr bytes ih = refl

pub feed-unix_lines :
    (p : Parser) (bytes : List ℕ)
    → feed (without_skip p) (unix_lines p.skip_lf bytes) ≡ forget (feed p bytes)
unfolding feed unix_lines without_skip forget accept break_line prepend with_skip
feed-unix_lines p [] = refl
feed-unix_lines p (b ∷ bytes) = elim (Bool-cases (p.skip_lf && b == 10)) [
  | inl lf ↦
      let r : b == 13 ≡ false = ground arith in
      rw (lf, r, prepend_nil (feed (without_skip p) bytes)) (feed-unix_lines (without_skip p) bytes)
  | inr go ↦ elim (Bool-cases (b == 13)) [
    | inl cr ↦
        rw (go, cr)
          (after_break (end_line (without_skip p)) true bytes (λ q. feed-unix_lines q bytes))
    | inr other ↦ elim (Bool-cases (b == 10)) [
      | inl lf ↦
          let broken =
            after_break (end_line (without_skip p)) false bytes (λ q. feed-unix_lines q bytes) in
          rw (go, other, lf, other) broken
      | inr plain ↦
          let held = record (without_skip p) { line = p.line ++ b ∷ [] } in
          rw (go, other, plain, other, prepend_nil (feed held bytes))
            (prepend_nil (feed held (unix_lines false bytes)) ∙ feed-unix_lines held bytes)
    ]
  ]
]

-- Feeding a new parser a stream and feeding it the stream with every CR LF pair and every lone CR
-- made a LF return the same events, or fail the same way.
pub feed-line_ends :
    (bytes : List ℕ) → events_of (feed new (unix_lines false bytes)) ≡ events_of (feed new bytes)
unfolding forget without_skip
feed-line_ends bytes =
    ap events_of (feed-unix_lines new bytes)
    ∙ >>=-assoc (feed new bytes) (λ (next : Parser × List Event). ok (without_skip next.0, next.1))
        (λ (next : Parser × List Event). ok next.1)
