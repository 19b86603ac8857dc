-- ===== src/Mailbox/Texts.antt =====
-- crates/core/src/messages.rs: the texts that a model is shown for an envelope.
use kyora.Base.{ℕ, Option, none, some, [], ◌∷◌, ◌++◌, Text, codes, decimal, ◌==◌, if◌then◌else◌}
use package.kyora.Mailbox.Envelopes.{Status, MessageKind, Envelope, as_str}

-- The wire form of a status.
unfoldable pub status_text : Status → Text
status_text Status.completed = codes "completed"
status_text Status.max_turns = codes "max_turns"
status_text Status.budget_exhausted = codes "budget_exhausted"
status_text Status.timeout = codes "timeout"
status_text Status.context_exhausted = codes "context_exhausted"
status_text Status.cancelled = codes "cancelled"
status_text Status.refused = codes "refused"
status_text Status.failed = codes "failed"
status_text Status.interrupted = codes "interrupted"

abbrev sender_part : Text → Text
sender_part [] = []
sender_part (c ∷ s) = codes " (" ++ ((c ∷ s) ++ codes ")")

abbrev status_part : Option Status → Text
unfolding status_text
status_part none = []
status_part (some status) = codes ": " ++ status_text status

abbrev body_part : Text → Text
body_part [] = []
body_part (c ∷ s) = codes "\n" ++ (c ∷ s)

-- `render`
unfoldable pub render_parts : MessageKind → ℕ → Text → Option Status → Text → Text
unfolding as_str status_part
render_parts kind from sender status body =
    let head = codes "[" ++ (as_str kind ++ (codes " from agent " ++ decimal from)) in
    head ++ (sender_part sender ++ (status_part status ++ (codes "]" ++ body_part body)))

-- `Envelope::render`
unfoldable pub render : Envelope → Text → Text
unfolding render_parts
render e sender = render_parts e.kind e.from sender e.status e.body

-- `more`
unfoldable pub more : ℕ → Text
more n =
    if n == 1
    then codes "1 more message waiting; it follows at your next turn"
    else decimal n ++ codes " more messages waiting; they follow at your next turn"

-- `deferred`
unfoldable pub deferred : ℕ → ℕ → Text → Text
deferred agent n last =
    let head = codes "agent " ++ (decimal agent ++ codes " finished, but ") in
    if n == 1
    then head ++ (codes "its " ++ (last ++ codes " did not fit; it follows at your next turn"))
    else head
      ++ (decimal n
          ++ (codes " of its messages, its "
              ++ (last ++ codes " last, did not fit; they follow at your next turn")))
