-- ===== src/Protocol/Stop.antt =====
-- crates/protocol/src/lib.rs, `StopReason` and its wire form.
use kyora.Base.{◌≡◌, if◌then◌else◌, Text, codes, text_eq, text_eq_sound, arith}

pub data StopReason : Type 0 where
  end_turn tool_use max_tokens stop_sequence pause_turn refusal : StopReason
  model_context_window_exceeded : StopReason
  other : Text → StopReason

unfoldable pub serialize : StopReason → Text
serialize StopReason.end_turn = codes "end_turn"
serialize StopReason.tool_use = codes "tool_use"
serialize StopReason.max_tokens = codes "max_tokens"
serialize StopReason.stop_sequence = codes "stop_sequence"
serialize StopReason.pause_turn = codes "pause_turn"
serialize StopReason.refusal = codes "refusal"
serialize StopReason.model_context_window_exceeded = codes "model_context_window_exceeded"
serialize (StopReason.other reason) = reason

unfoldable pub deserialize : Text → StopReason
deserialize t =
    if text_eq t (codes "end_turn")
    then StopReason.end_turn
    else if text_eq t (codes "tool_use")
    then StopReason.tool_use
    else if text_eq t (codes "max_tokens")
    then StopReason.max_tokens
    else if text_eq t (codes "stop_sequence")
    then StopReason.stop_sequence
    else if text_eq t (codes "pause_turn")
    then StopReason.pause_turn
    else if text_eq t (codes "refusal")
    then StopReason.refusal
    else if text_eq t (codes "model_context_window_exceeded")
    then StopReason.model_context_window_exceeded
    else StopReason.other t

-- Reading any text as a stop reason and writing that gives the text back.
pub serialize-deserialize : (t : Text) → serialize (deserialize t) ≡ t
unfolding serialize deserialize
serialize-deserialize t = ground (
  arith,
  text_eq_sound t (codes "end_turn"),
  text_eq_sound t (codes "tool_use"),
  text_eq_sound t (codes "max_tokens"),
  text_eq_sound t (codes "stop_sequence"),
  text_eq_sound t (codes "pause_turn"),
  text_eq_sound t (codes "refusal"),
  text_eq_sound t (codes "model_context_window_exceeded"),
)
