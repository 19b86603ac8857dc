-- ===== src/Sse/Printing.antt =====
-- crates/providers/src/anthropic/sse.rs: events written as lines, for `feed` to read.
use mathlib.Core.List.{append-nil, append_assoc}
use kyora.Base.{
  ℕ, ◌≡◌, refl, ◌∙◌, ap, Bool, true, false, Option, List, [], ◌∷◌, ◌++◌, ◌==◌, if◌then◌else◌, ok,
  Text, text_eq, codes, arith,
}
use kyora.Sse.{
  Parser, Event, blank, followed_by, accept, break_line, end_line, interpret, dispatch, complete,
  drop_last, strip, split_field, set_field, feed, is_empty,
}
use kyora.Sse.Utf8.{Plain, Plain-append, from_utf8-Plain}
use kyora.Sse.Feeding.{feed-append}

-- A parser that holds the first part of a line, and one at the start of a line.
abbrev pub holding : List ℕ → Bool → Event → Bool → Text → Option ℕ → Parser
holding line first_line current has_data last_id retry = record {
  line = line;
  skip_lf = false;
  first_line = first_line;
  current = current;
  has_data = has_data;
  last_id = last_id;
  retry = retry;
}

strip-Plain : (s : Text) → Plain s → strip 0xFEFF s ≡ s
unfolding strip
strip-Plain [] h = refl
strip-Plain (c ∷ s) h = ground arith

no_more :
    (x : Parser × List Event)
    → followed_by (ok (record (x.0) { skip_lf = false }, x.1)) (λ q. ok (q, []))
      ≡ ok (record (x.0) { skip_lf = false }, x.1)
no_more (q, events) = rw (append-nil events) refl

module _ (id : Text) (retry : Option ℕ) where
  feed-Plain :
      (held s : List ℕ) (first : Bool) (e : Event) (data_seen : Bool)
      → Plain s
      → feed (holding held first e data_seen id retry) s
        ≡ ok (holding (held ++ s) first e data_seen id retry, [])
  unfolding feed accept
  feed-Plain held [] first e data_seen h = rw (append-nil held) refl
  feed-Plain held (c ∷ s) first e data_seen h =
      let not_cr : c == 13 ≡ false = ground arith in
      let not_lf : c == 10 ≡ false = ground arith in
      rw
        (
          not_cr,
          not_lf,
          feed-Plain (held ++ c ∷ []) s first e data_seen h.3,
          append_assoc held (c ∷ []) s,
        )
        refl

  -- A whole line is what `interpret` makes of it.
  feed-line :
      (s : List ℕ) (first : Bool) (e : Event) (data_seen : Bool)
      → Plain s
      → feed (holding [] first e data_seen id retry) (s ++ 10 ∷ []) ≡ (
          let (q, events) = interpret (holding [] false e data_seen id retry) s in
          ok (record q { skip_lf = false }, events))
  unfolding feed accept break_line end_line
  feed-line s true e data_seen h =
      feed-append (holding [] true e data_seen id retry) s (10 ∷ [])
      ∙ rw (feed-Plain [] s true e data_seen h, from_utf8-Plain s h, strip-Plain s h)
          (no_more (interpret (holding [] false e data_seen id retry) s))
  feed-line s false e data_seen h =
      feed-append (holding [] false e data_seen id retry) s (10 ∷ [])
      ∙ rw (feed-Plain [] s false e data_seen h, from_utf8-Plain s h)
          (no_more (interpret (holding [] false e data_seen id retry) s))

-- The lines of an event: its name, and its data one line each.
data_line : Text → List ℕ
data_line d = codes "data: " ++ (d ++ 10 ∷ [])

data_lines : List Text → List ℕ
data_lines [] = []
data_lines (d ∷ ds) = data_line d ++ data_lines ds

unfoldable pub encode : Text → List Text → List ℕ
unfolding data_lines data_line
encode name ds = ((codes "event: " ++ name) ++ 10 ∷ []) ++ (data_lines ds ++ 10 ∷ [])

-- The lines with a line feed between them.
unfoldable pub join_lines : List Text → Text
join_lines [] = []
join_lines (d ∷ []) = d
join_lines (d ∷ e ∷ ds) = d ++ (10 ∷ join_lines (e ∷ ds))

abbrev pub AllPlain : List Text → Type 0
AllPlain [] = Unit {0}
AllPlain (d ∷ ds) = Plain d × AllPlain ds

ended : List Text → Text
ended [] = []
ended (d ∷ ds) = (d ++ 10 ∷ []) ++ ended ds

drop_last-append : (s t : Text) (c : ℕ) → drop_last (s ++ (c ∷ t)) ≡ s ++ drop_last (c ∷ t)
unfolding drop_last
drop_last-append [] t c = refl
drop_last-append (a ∷ []) t c = refl
drop_last-append (a ∷ b ∷ s) t c = ap (λ (x : Text). a ∷ x) (drop_last-append (b ∷ s) t c)

drop_last-cons :
    (c : ℕ) (d : Text) (ds : List Text)
    → drop_last (c ∷ ended (d ∷ ds)) ≡ c ∷ drop_last (ended (d ∷ ds))
unfolding ended drop_last
drop_last-cons c [] ds = refl
drop_last-cons c (a ∷ d) ds = refl

drop_last-ended : (d : Text) (ds : List Text) → drop_last (ended (d ∷ ds)) ≡ join_lines (d ∷ ds)
unfolding ended join_lines drop_last
drop_last-ended d [] =
    ap drop_last (append-nil (d ++ 10 ∷ [])) ∙ drop_last-append d [] 10 ∙ append-nil d
drop_last-ended d (e ∷ ds) =
    ap drop_last (append_assoc d (10 ∷ []) (ended (e ∷ ds)))
    ∙ drop_last-append d (ended (e ∷ ds)) 10
    ∙ ap (λ (x : Text). d ++ x)
        (drop_last-cons 10 e ds ∙ ap (λ (x : Text). 10 ∷ x) (drop_last-ended e ds))

module _ (id : Text) (retry : Option ℕ) where
  with_data : Event → Text → Event
  with_data e more = record e { data_text = e.data_text ++ more }

  feed-name :
      (name : Text) (first : Bool)
      → Plain name
      → feed (holding [] first blank false id retry) ((codes "event: " ++ name) ++ 10 ∷ [])
        ≡ ok (holding [] false (record blank { event = name }) false id retry, [])
  unfolding interpret split_field set_field strip text_eq
  feed-name name first h =
      let line = Plain-append (codes "event: ") name (omega arith) h in
      feed-line id retry (codes "event: " ++ name) first blank false line

  feed-data :
      (d : Text) (e : Event) (data_seen : Bool)
      → Plain d
      → feed (holding [] false e data_seen id retry) (data_line d)
        ≡ ok (holding [] false (with_data e (d ++ 10 ∷ [])) true id retry, [])
  unfolding interpret split_field set_field strip text_eq data_line with_data
  feed-data d e data_seen h =
      let line = Plain-append (codes "data: ") d (omega arith) h in
      feed-line id retry (codes "data: " ++ d) false e data_seen line

  feed-data_lines :
      (ds : List Text) (e : Event)
      → AllPlain ds
      → feed (holding [] false e true id retry) (data_lines ds)
        ≡ ok (holding [] false (with_data e (ended ds)) true id retry, [])
  unfolding data_lines ended with_data feed
  feed-data_lines [] e h = rw (append-nil e.data_text) refl
  feed-data_lines (d ∷ ds) e h =
      feed-append (holding [] false e true id retry) (data_line d) (data_lines ds)
      ∙ rw
          (
            feed-data d e true h.0,
            feed-data_lines ds (with_data e (d ++ 10 ∷ [])) h.1,
            append_assoc e.data_text (d ++ 10 ∷ []) (ended ds),
          )
          refl

  feed-all_lines :
      (d : Text) (ds : List Text) (e : Event)
      → AllPlain (d ∷ ds)
      → feed (holding [] false e false id retry) (data_lines (d ∷ ds))
        ≡ ok (holding [] false (with_data e (ended (d ∷ ds))) true id retry, [])
  unfolding data_lines ended with_data
  feed-all_lines d ds e h =
      feed-append (holding [] false e false id retry) (data_line d) (data_lines ds)
      ∙ rw
          (
            feed-data d e false h.0,
            feed-data_lines ds (with_data e (d ++ 10 ∷ [])) h.1,
            append_assoc e.data_text (d ++ 10 ∷ []) (ended ds),
          )
          refl

  feed-empty_line :
      (e : Event)
      → feed (holding [] false e true id retry) (10 ∷ [])
        ≡ ok (
          holding [] false blank false id retry,
          complete (holding [] false e true id retry) ∷ [],
        )
  unfolding interpret dispatch
  feed-empty_line e = feed-line id retry [] false e true tt

  feed-body :
      (name d : Text) (ds : List Text)
      → AllPlain (d ∷ ds)
      → feed
          (holding [] false (record blank { event = name }) false id retry)
          (data_lines (d ∷ ds) ++ 10 ∷ [])
        ≡ ok (
          holding [] false blank false id retry,
          (record {
            event = if is_empty name then codes "message" else name;
            data_text = join_lines (d ∷ ds);
            id = id;
            retry = retry;
          })
              ∷ [],
        )
  unfolding complete with_data
  feed-body name d ds k =
      let named = record blank { event = name } in
      feed-append (holding [] false named false id retry) (data_lines (d ∷ ds)) (10 ∷ [])
      ∙ rw
          (
            feed-all_lines d ds named k,
            feed-empty_line (with_data named (ended (d ∷ ds))),
            drop_last-ended d ds,
          )
          refl

  -- An event of ASCII text, written as a line with its name, a line for each of its data lines (at
  -- least one), and an empty line, is read back between two events: its name, or "message" when it
  -- is empty, its data lines with a line feed between them, and the id and retry seen last.
  pub feed-encode :
      (name d : Text) (ds : List Text) (first : Bool)
      → Plain name
      → AllPlain (d ∷ ds)
      → feed (holding [] first blank false id retry) (encode name (d ∷ ds))
        ≡ ok (
          holding [] false blank false id retry,
          (record {
            event = if is_empty name then codes "message" else name;
            data_text = join_lines (d ∷ ds);
            id = id;
            retry = retry;
          })
              ∷ [],
        )
  unfolding encode
  feed-encode name d ds first h k =
      feed-append (holding [] first blank false id retry) ((codes "event: " ++ name) ++ 10 ∷ [])
        (data_lines (d ∷ ds) ++ 10 ∷ [])
      ∙ rw (feed-name name first h, feed-body name d ds k) refl
