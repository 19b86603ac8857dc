-- ===== src/Accumulator/Tests.antt =====
-- A whole stream of one text block, accumulated. Values are their own JSON text here.
use kyora.Base.{◌≡◌, refl, Option, some, List, [], ◌∷◌, ◌++◌, Text, codes, ok}
use kyora.Protocol.{BlockStart, ContentBlock, ModelResponse, StreamEvent}
use kyora.Protocol.Counters.{Usage, zero_usage}
use kyora.Protocol.Stop.{StopReason}
use kyora.Accumulator.{Json, collect}
use kyora.Accumulator.Runs.{collect-shape}

verbatim : Json Text
verbatim = record {
  null = [];
  string = λ t. t;
  empty_object = codes "{}";
  from_str = λ t. some t;
  to_string = λ v. some v;
}

abbrev events : List (StreamEvent Text)
events =
    StreamEvent.message_start (some (codes "msg_1")) (codes "m") zero_usage
    ∷ StreamEvent.block_start 0 BlockStart.text
    ∷ StreamEvent.text_delta 0 (codes "hel")
    ∷ StreamEvent.text_delta 0 (codes "lo")
    ∷ StreamEvent.block_stop 0
    ∷ StreamEvent.message_delta (some StopReason.end_turn) zero_usage
    ∷ StreamEvent.message_stop
    ∷ []

abbrev response : ModelResponse Text
response = record {
  id = some (codes "msg_1");
  model = codes "m";
  content = ContentBlock.text (codes "hello") ∷ [];
  stop_reason = StopReason.end_turn;
  usage = zero_usage;
  usage_iterations = [];
}

collected : collect verbatim events ≡ ok response
unfolding collect
collected = refl

collect-shape_example :
    (id : Option Text) × (model : Text) × (usage : Usage) × (middle : List (StreamEvent Text))
    × (events
        ≡ StreamEvent.message_start id model usage ∷ (middle ++ StreamEvent.message_stop ∷ []))
collect-shape_example = collect-shape verbatim events response collected
