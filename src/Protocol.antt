-- ===== src/Protocol.antt =====
-- crates/protocol/src/lib.rs: messages, content blocks, usage counters, stop reasons and streaming
-- events. `V` stands for `serde_json::Value`. Counters are u64 and wrap as in the release profile.
pub mod Counters
pub mod Stop
mod Tests
use Counters.{Usage}
use Stop.{StopReason}
use kyora.Base.{ℕ, Bool, Option, none, some, List, [], ◌∷◌, ◌++◌, Text, codes}

pub data Role : Type 0 where
  user assistant : Role

pub data ToolResultPart : Type 0 where
  text : Text → ToolResultPart

pub data ContentBlock (V : Type 0) : Type 0 where
  text : Text → ContentBlock V
  thinking : Text → Option Text → ContentBlock V
  tool_use : Text → Text → V → ContentBlock V
  tool_result : Text → List ToolResultPart → Bool → ContentBlock V
  opaque : Text → Text → V → ContentBlock V

pub record Message (V : Type 0) : Type 0 where
  pub role : Role
  pub content : List (ContentBlock V)

module _ {V : Type 0} where
  pub user_text : Text → Message V
  user_text s = record { role = Role.user; content = ContentBlock.text s ∷ [] }

  pub assistant_text : Text → Message V
  assistant_text s = record { role = Role.assistant; content = ContentBlock.text s ∷ [] }

  unfoldable pub text_of : List (ContentBlock V) → Text
  text_of [] = []
  text_of (ContentBlock.text s ∷ bs) = s ++ text_of bs
  text_of (_ ∷ bs) = text_of bs

  unfoldable pub tool_uses_of : List (ContentBlock V) → List (Text × Text × V)
  tool_uses_of [] = []
  tool_uses_of (ContentBlock.tool_use id name input ∷ bs) = (id, name, input) ∷ tool_uses_of bs
  tool_uses_of (_ ∷ bs) = tool_uses_of bs

-- `Message::text`
unfoldable pub message_text : {V : Type 0} → Message V → Text
unfolding text_of
message_text m = text_of m.content

-- `Message::tool_uses`
unfoldable pub tool_uses : {V : Type 0} → Message V → List (Text × Text × V)
unfolding tool_uses_of
tool_uses m = tool_uses_of m.content

pub record ToolSpec (V : Type 0) : Type 0 where
  pub name : Text
  pub description : Text
  pub input_schema : V
  pub large_input : Bool

-- Usage of one attempt that the provider reports.
pub record UsageIteration : Type 0 where
  pub model : Text
  pub kind : Text
  pub usage : Usage

pub record ModelResponse (V : Type 0) : Type 0 where
  pub id : Option Text
  pub model : Text
  pub content : List (ContentBlock V)
  pub stop_reason : StopReason
  pub usage : Usage
  pub usage_iterations : List UsageIteration

-- The part of a request that the modelled code reads; its options and tools are not.
pub record ModelRequest (V : Type 0) : Type 0 where
  pub model : Text
  pub system : Option Text
  pub messages : List (Message V)
  pub tools : List (ToolSpec V)
  pub max_tokens : ℕ
  pub depth : ℕ

pub data BlockStart (V : Type 0) : Type 0 where
  text thinking : BlockStart V
  tool_use : Text → Text → BlockStart V
  opaque : Text → Text → V → BlockStart V

pub data StreamEvent (V : Type 0) : Type 0 where
  message_start : Option Text → Text → Usage → StreamEvent V
  block_start : ℕ → BlockStart V → StreamEvent V
  text_delta thinking_delta signature_delta tool_input_delta : ℕ → Text → StreamEvent V
  block_stop : ℕ → StreamEvent V
  message_delta : Option StopReason → Usage → StreamEvent V
  usage_snapshot : Text → Usage → List UsageIteration → StreamEvent V
  message_stop : StreamEvent V
