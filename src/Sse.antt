-- ===== src/Sse.antt =====
-- crates/providers/src/anthropic/sse.rs: the line-oriented framing of server-sent events.
mod Utf8
pub mod Feeding
pub mod Lines
pub mod Chunked
pub mod Printing
mod Tests
use kyora.Base.{
  ℕ, zero, suc, ◌+◌, ◌-◌, ◌*◌, Bool, true, false, not, ◌&&◌, ◌||◌, Option, none, some, List, [],
  ◌∷◌, ◌++◌, ◌==◌, ltb, leb, if◌then◌else◌, Text, codes, text_eq, any, contains, Outcome, ok, err,
  panic, ◌>>=◌, ok_or,
}
use kyora.Base.Words.{u64_mod}
use kyora.Provider.{ProviderError}
unfoldable pub use Utf8.{from_utf8}

pub record Event : Type 0 where
  pub event : Text
  pub data_text : Text
  pub id : Text
  pub retry : Option ℕ

pub record Parser : Type 0 where
  pub line : List ℕ
  pub skip_lf : Bool
  pub first_line : Bool
  pub current : Event
  pub has_data : Bool
  pub last_id : Text
  pub retry : Option ℕ

-- A call on a parser: the parser after it and the events it returns.
abbrev pub Run : Type 0
Run = Outcome ProviderError (Parser × List Event)

-- `Event::default`
abbrev pub blank : Event
blank = record { event = []; data_text = []; id = []; retry = none }

-- `Parser::new`
abbrev pub new : Parser
new = record {
  line = [];
  skip_lf = false;
  first_line = true;
  current = blank;
  has_data = false;
  last_id = [];
  retry = none;
}

-- `strip_prefix(c).unwrap_or(line)`
unfoldable pub strip : ℕ → Text → Text
strip c [] = []
strip c (d ∷ s) = if d == c then s else d ∷ s

-- `String::pop`
unfoldable pub drop_last : Text → Text
drop_last [] = []
drop_last (c ∷ []) = []
drop_last (c ∷ d ∷ s) = c ∷ drop_last (d ∷ s)

-- `line.split_once(':').unwrap_or((line, ""))`
unfoldable pub split_field : Text → Text × Text
split_field [] = ([], [])
split_field (c ∷ s) =
    let (field, value) = split_field s in if c == 58 then ([], s) else (c ∷ field, value)

unfoldable pub all_digits : Text → Bool
all_digits [] = true
all_digits (c ∷ s) = leb 48 c && leb c 57 && all_digits s

unfoldable pub number : ℕ → Text → ℕ
number n [] = n
number n (c ∷ s) = number (n * 10 + (c - 48)) s

-- `value.parse::<u64>()`, of digits.
unfoldable pub parse_u64 : Text → Option ℕ
unfolding number
parse_u64 s = if ltb (number 0 s) u64_mod then some (number 0 s) else none

abbrev pub is_empty : Text → Bool
is_empty [] = true
is_empty (_ ∷ _) = false

abbrev pub or_keep : Option ℕ → Option ℕ → Option ℕ
or_keep none old = old
or_keep (some n) old = some n

-- The `match field` of `Parser::line`.
unfoldable pub set_field : Parser → Text → Text → Parser
unfolding parse_u64 all_digits
set_field p field value =
    if text_eq field (codes "event")
    then record p { current = record (p.current) { event = value } }
    else if text_eq field (codes "data")
    then record p {
      current = record (p.current) { data_text = p.current.data_text ++ (value ++ 10 ∷ []) };
      has_data = true;
    }
    else if text_eq field (codes "id") && not (contains 0 value)
    then record p { last_id = value }
    else if text_eq field (codes "retry") && (not (is_empty value) && all_digits value)
    then record p { retry = or_keep (parse_u64 value) p.retry }
    else p

-- The event that an empty line ends.
unfoldable pub complete : Parser → Event
unfolding drop_last
complete p = record {
  event = if is_empty p.current.event then codes "message" else p.current.event;
  data_text = drop_last p.current.data_text;
  id = p.last_id;
  retry = p.retry;
}

-- An empty line: the event it completes, if there was data.
unfoldable pub dispatch : Parser → Parser × List Event
unfolding complete
dispatch p =
    (record p { current = blank; has_data = false }, if p.has_data then complete p ∷ [] else [])

-- A line without its byte order mark.
unfoldable pub interpret : Parser → Text → Parser × List Event
unfolding dispatch set_field split_field strip
interpret p [] = dispatch p
interpret p (c ∷ s) =
    if c == 58
    then (p, [])
    else let (field, value) = split_field (c ∷ s) in (set_field p field (strip 32 value), [])

-- `Parser::line`: the bytes held so far are a line.
unfoldable pub end_line : Parser → Run
unfolding interpret strip
end_line p = do
  line ← ok_or (from_utf8 p.line) (ProviderError.protocol (codes "invalid SSE UTF-8"))
  let text = if p.first_line then strip 0xFEFF line else line
  ok (interpret (record p { line = []; first_line = false }) text)

-- The end of a line in `Parser::feed`.
unfoldable pub break_line : Parser → ℕ → Run
unfolding end_line
break_line p byte = do
  (after, events) ← end_line p
  ok (record after { skip_lf = byte == 13 }, events)

-- One byte of `Parser::feed`.
unfoldable pub accept : Parser → ℕ → Run
unfolding break_line
accept p byte =
    let q = record p { skip_lf = false } in
    if p.skip_lf && byte == 10
    then ok (q, [])
    else if byte == 13 || byte == 10
    then break_line q byte
    else ok (record q { line = p.line ++ byte ∷ [] }, [])

-- One call and then another: the events of both, in order.
abbrev pub followed_by : Run → (Parser → Run) → Run
followed_by (ok (p, events)) f =
    f p >>= λ (next : Parser × List Event). ok (next.0, events ++ next.1)
followed_by (err e) f = err e
followed_by panic f = panic

-- `Parser::feed`. An error drops the events of the same call.
unfoldable pub feed : Parser → List ℕ → Run
unfolding accept
feed p [] = ok (p, [])
feed p (byte ∷ bytes) = followed_by (accept p byte) (λ q. feed q bytes)
