-- ===== src/Scripted/Tests.antt =====
-- A scripted response with text, reasoning and a tool call, streamed and collected. Values are
-- their own JSON text here.
use kyora.Base.{◌≡◌, refl, some, List, [], ◌∷◌, arith, Text, codes, concat, ok}
use kyora.Protocol.{ContentBlock, ModelResponse, ModelRequest, StreamEvent, user_text}
use kyora.Protocol.Counters.{zero_usage}
use kyora.Protocol.Stop.{StopReason}
use kyora.Accumulator.{Json, collect}
use kyora.Scripted.{response_events, completed}
use kyora.Scripted.Chunks.{chunks, Small, chunks_lem}
use kyora.Scripted.RoundTrip.{collect-response_events}

verbatim : Json Text
verbatim = record {
  null = [];
  string = λ t. t;
  empty_object = codes "{}";
  from_str = λ t. some t;
  to_string = λ v. some v;
}

abbrev response : ModelResponse Text
response = record {
  id = some (codes "msg_1");
  model = [];
  content =
      ContentBlock.thinking (codes "the file is missing, so it has to be made") (some (codes "sig"))
      ∷ ContentBlock.text (codes "Creating it.")
      ∷ ContentBlock.tool_use (codes "t1") (codes "write")
          (codes "{\"path\":\"a.txt\",\"text\":\"x\"}")
      ∷ [];
  stop_reason = StopReason.tool_use;
  usage = zero_usage;
  usage_iterations = [];
}

request : ModelRequest Text
request = record {
  model = codes "scripted";
  system = some (codes "be brief");
  messages = user_text (codes "make a.txt") ∷ [];
  tools = [];
  max_tokens = 4096;
  depth = 0;
}

collect-response_events_example :
    (events : List (StreamEvent Text)) × (response_events verbatim response request 16 ≡ ok events)
    × (collect verbatim events ≡ ok (completed response request))
unfolding verbatim
collect-response_events_example =
    collect-response_events verbatim response request 16 (
      tt,
      (tt, ((codes "{\"path\":\"a.txt\",\"text\":\"x\"}", refl, (λ e. ground arith), refl), tt)),
    )

chunks_lem_example :
    (concat (chunks (codes "hé🌍llo") 4) ≡ codes "hé🌍llo") × Small 4 (chunks (codes "hé🌍llo") 4)
chunks_lem_example = chunks_lem (codes "hé🌍llo") 4
