-- ===== src/Sse/Tests.antt =====
-- The framing on a stream that is cut inside a character and a line end, and on an event written
-- out.
use kyora.Base.{
  ℕ, ◌≡◌, refl, false, List, [], ◌∷◌, codes, ok, ◌++◌, none, text_eq, true, arith, length,
}
use kyora.Sse.{new, feed, from_utf8}
use kyora.Sse.Printing.{encode, join_lines, feed-encode}
use kyora.Sse.Chunked.{feed_all, Reads, feed_all-Reads}
use kyora.Sse.Feeding.{unix_lines, events_of, feed-line_ends}

-- "data: é" and an empty line, with CR LF, cut inside the character and between CR and LF.
abbrev cut : List (List ℕ)
cut = (codes "data: " ++ 0xC3 ∷ []) ∷ (0xA9 ∷ 13 ∷ []) ∷ (10 ∷ 13 ∷ []) ∷ (10 ∷ []) ∷ []

yields_event :
    (feed_all new cut).0
    ≡ (record { event = codes "message"; data_text = 0xE9 ∷ []; id = []; retry = none }) ∷ []
unfolding feed_all feed from_utf8 text_eq
yields_event = refl

-- An event, a chunk with another event and the start of a line, and a chunk that ends the line,
-- which is not UTF-8.
abbrev broken : List (List ℕ)
broken = codes "data: a\n\n" ∷ (codes "data: b\r\n\r" ++ 0xFF ∷ []) ∷ codes "\ndata: c" ∷ []

-- Both events have been given when the error comes.
gives_both : length (feed_all new broken).0 ≡ 2
unfolding feed_all feed from_utf8 text_eq
gives_both = refl

feed_all-Reads_example : Reads broken (feed_all new broken)
feed_all-Reads_example = feed_all-Reads broken

feed-line_ends_example :
    events_of (feed new (unix_lines false (codes "data: a\r\n\r\n")))
    ≡ events_of (feed new (codes "data: a\r\n\r\n"))
feed-line_ends_example = feed-line_ends (codes "data: a\r\n\r\n")

feed-encode_example :
    feed new (encode (codes "ping") (codes "a: b" ∷ codes "" ∷ codes "c" ∷ []))
    ≡ ok (
      record new { first_line = false },
      (record { event = codes "ping"; data_text = codes "a: b\n\nc"; id = []; retry = none }) ∷ [],
    )
unfolding join_lines
feed-encode_example =
    feed-encode [] none (codes "ping") (codes "a: b") (codes "" ∷ codes "c" ∷ []) true (omega arith)
      (omega arith)
