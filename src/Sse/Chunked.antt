-- ===== src/Sse/Chunked.antt =====
-- crates/providers/src/anthropic/sse.rs, on a stream that arrives in chunks: the calls of `feed` that
-- its reader makes, against the lines of the whole stream.
use mathlib.Core.List.{append_assoc, append-nil}
use kyora.Base.{ℕ, ◌≡◌, refl, ◌∙◌, sym, ap, List, [], ◌∷◌, ◌++◌, Outcome, ok, err, panic, concat}
use kyora.Provider.{ProviderError}
use kyora.Sse.{Parser, Event, Run, followed_by, feed, new}
use package.kyora.Sse.Feeding.{without_skip, forget, feed-append, prepend}
use package.kyora.Sse.Lines.{read_stream, feed-read_stream, feed-panic}

-- What a reader has been given, and the parser it has or the error that ended the stream.
abbrev pub Given : Type 0
Given = List Event × Outcome ProviderError Parser

-- The events of a call are handed on before the next call.
abbrev hand_on : Run → (Parser → Given) → Given
hand_on (ok (p, events)) rest = (events ++ (rest p).0, (rest p).1)
hand_on (err e) rest = ([], err e)
hand_on panic rest = ([], panic)

-- Calls of `feed`, one for each chunk, up to an error.
unfoldable pub feed_all : Parser → List (List ℕ) → Given
feed_all p [] = ([], ok p)
feed_all p (chunk ∷ chunks) = hand_on (feed p chunk) (λ q. feed_all q chunks)

-- An error comes from the chunk that completes a bad line: given were the events of the lines that
-- the chunks before it complete.
pub record FailsIn (chunks : List (List ℕ)) (events : List Event) (e : ProviderError) : Type 0 where
  pub before : List (List ℕ)
  pub bad : List ℕ
  pub later : List (List ℕ)
  pub cut : chunks ≡ before ++ bad ∷ later
  pub state : Parser
  pub given : read_stream new (concat before) ≡ ok (state, events)
  pub fails : read_stream new (concat (before ++ bad ∷ [])) ≡ err e

abbrev pub Reads : List (List ℕ) → Given → Type 0
Reads chunks (events, ok q) = read_stream new (concat chunks) ≡ ok (without_skip q, events)
Reads chunks (events, err e) = FailsIn chunks events e
Reads chunks (events, panic) = ⊥

concat-append : (a : List (List ℕ)) (chunk : List ℕ) → concat (a ++ chunk ∷ []) ≡ concat a ++ chunk
unfolding concat
concat-append [] chunk = append-nil chunk
concat-append (c ∷ a) chunk =
    ap (λ rest. c ++ rest) (concat-append a chunk) ∙ sym (append_assoc c (concat a) chunk)

-- One more chunk.
feed-more :
    (before : List (List ℕ)) (chunk : List ℕ) (p : Parser) (given : List Event)
    → feed new (concat before) ≡ ok (p, given)
    → feed new (concat (before ++ chunk ∷ [])) ≡ prepend given (feed p chunk)
unfolding prepend
feed-more before chunk p given h =
    ap (feed new) (concat-append before chunk)
    ∙ feed-append new (concat before) chunk
    ∙ ap (λ (m : Run). followed_by m (λ q. feed q chunk)) h

reads_at : (bytes : List ℕ) (m : Run) → feed new bytes ≡ m → read_stream new bytes ≡ forget m
reads_at bytes m h = sym (feed-read_stream bytes) ∙ ap forget h

-- The calls from one chunk on, when those from the next are known.
hand_on-Reads :
    (chunk : List ℕ) (chunks before : List (List ℕ)) (p : Parser) (given : List Event) (m : Run)
    → feed new (concat before) ≡ ok (p, given)
    → feed p chunk ≡ m
    → ((q : Parser) (events : List Event)
        → feed new (concat (before ++ chunk ∷ [])) ≡ ok (q, events)
        → Reads
            ((before ++ chunk ∷ []) ++ chunks)
            (events ++ (feed_all q chunks).0, (feed_all q chunks).1))
    → let (more, end) = hand_on m (λ q. feed_all q chunks) in
      Reads (before ++ chunk ∷ chunks) (given ++ more, end)
unfolding prepend forget
hand_on-Reads chunk chunks before p given (ok (q, events)) h e rest =
    rw
      (
        sym (append_assoc given events ((feed_all q chunks).0)),
        sym (append_assoc before (chunk ∷ []) chunks),
      )
      (rest q (given ++ events) (feed-more before chunk p given h ∙ ap (prepend given) e))
hand_on-Reads chunk chunks before p given (err x) h e rest = record {
  before = before;
  bad = chunk;
  later = chunks;
  cut = refl;
  state = without_skip p;
  given = rw (append-nil given) (reads_at (concat before) (ok (p, given)) h);
  fails =
      reads_at (concat (before ++ chunk ∷ [])) (err x)
        (feed-more before chunk p given h ∙ ap (prepend given) e);
}
hand_on-Reads chunk chunks before p given panic h e rest = feed-panic p chunk e

feed_all-from :
    (chunks before : List (List ℕ)) (p : Parser) (given : List Event)
    → feed new (concat before) ≡ ok (p, given)
    → Reads (before ++ chunks) (given ++ (feed_all p chunks).0, (feed_all p chunks).1)
unfolding feed_all forget
feed_all-from [] before p given h =
    rw (append-nil before, append-nil given) (reads_at (concat before) (ok (p, given)) h)
feed_all-from (chunk ∷ chunks) before p given h =
    hand_on-Reads chunk chunks before p given (feed p chunk) h refl
      (λ q events fed. feed_all-from chunks (before ++ chunk ∷ []) q events fed)

-- A stream that is fed to a new parser in chunks, cut anywhere, also inside a character or between
-- CR and LF, is read line by line: its lines are found by making every CR LF and lone CR a LF and
-- splitting at the LFs. When all its lines are UTF-8, the events are those of its lines, in order,
-- and the parser is left as they leave it, with the bytes after the last of them. Otherwise the calls
-- end with an error at a chunk that completes a bad line, and the events of all lines completed in
-- the chunks before it have been given, but none of that chunk's. The calls never panic.
pub feed_all-Reads : (chunks : List (List ℕ)) → Reads chunks (feed_all new chunks)
unfolding feed concat
feed_all-Reads chunks = feed_all-from chunks [] new [] refl
