-- ===== src/Runtime/Conversation.antt =====
-- crates/core/src/runtime.rs, `agent`: every tool call of the conversation is answered.
use kyora.Base.{◌≡◌, refl, ap, List, [], ◌∷◌, ◌++◌, map, Text}
use kyora.Protocol.{ContentBlock, Message, Role, tool_uses_of}

module _ {V : Type 0} where
  -- The calls that a message's results answer, and the calls that it makes.
  abbrev pub result_ids : List (ContentBlock V) → List Text
  result_ids [] = []
  result_ids (ContentBlock.tool_result id parts is_error ∷ bs) = id ∷ result_ids bs
  result_ids (ContentBlock.text _ ∷ bs) = result_ids bs
  result_ids (ContentBlock.thinking _ _ ∷ bs) = result_ids bs
  result_ids (ContentBlock.tool_use _ _ _ ∷ bs) = result_ids bs
  result_ids (ContentBlock.opaque _ _ _ ∷ bs) = result_ids bs

  abbrev pub use_ids : List (ContentBlock V) → List Text
  use_ids [] = []
  use_ids (ContentBlock.tool_use id name input ∷ bs) = id ∷ use_ids bs
  use_ids (ContentBlock.text _ ∷ bs) = use_ids bs
  use_ids (ContentBlock.thinking _ _ ∷ bs) = use_ids bs
  use_ids (ContentBlock.tool_result _ _ _ ∷ bs) = use_ids bs
  use_ids (ContentBlock.opaque _ _ _ ∷ bs) = use_ids bs

  -- A history and the calls that its last message leaves open. It begins with a user message; each
  -- user message answers exactly the calls left open before it, in their order, and makes none; an
  -- assistant message only follows when none is open.
  pub data Conversation : List (Message V) → List Text → Type 0 where
    opening :
        (m : Message V)
        → m.role ≡ Role.user
        → result_ids m.content ≡ []
        → use_ids m.content ≡ []
        → Conversation (m ∷ []) []
    asked :
        {h : List (Message V)} (m : Message V)
        → Conversation h []
        → m.role ≡ Role.assistant
        → Conversation (h ++ m ∷ []) (use_ids m.content)
    told :
        {h : List (Message V)} {ids : List Text} (m : Message V)
        → Conversation h ids
        → m.role ≡ Role.user
        → result_ids m.content ≡ ids
        → use_ids m.content ≡ []
        → Conversation (h ++ m ∷ []) []

  pub ids-tool_uses_of :
      (bs : List (ContentBlock V))
      → map {B = Text} (λ (u : Text × Text × V). u.0) (tool_uses_of bs) ≡ use_ids bs
  unfolding tool_uses_of
  ids-tool_uses_of [] = refl
  ids-tool_uses_of (ContentBlock.tool_use id name input ∷ bs) =
      ap (λ (ids : List Text). id ∷ ids) (ids-tool_uses_of bs)
  ids-tool_uses_of (ContentBlock.text _ ∷ bs) = ids-tool_uses_of bs
  ids-tool_uses_of (ContentBlock.thinking _ _ ∷ bs) = ids-tool_uses_of bs
  ids-tool_uses_of (ContentBlock.tool_result _ _ _ ∷ bs) = ids-tool_uses_of bs
  ids-tool_uses_of (ContentBlock.opaque _ _ _ ∷ bs) = ids-tool_uses_of bs

  pub result_ids-append :
      (cs bs : List (ContentBlock V)) → result_ids (cs ++ bs) ≡ result_ids cs ++ result_ids bs
  result_ids-append [] bs = refl
  result_ids-append (ContentBlock.tool_result id _ _ ∷ cs) bs =
      ap (λ (ids : List Text). id ∷ ids) (result_ids-append cs bs)
  result_ids-append (ContentBlock.text _ ∷ cs) bs = result_ids-append cs bs
  result_ids-append (ContentBlock.thinking _ _ ∷ cs) bs = result_ids-append cs bs
  result_ids-append (ContentBlock.tool_use _ _ _ ∷ cs) bs = result_ids-append cs bs
  result_ids-append (ContentBlock.opaque _ _ _ ∷ cs) bs = result_ids-append cs bs

  pub use_ids-append :
      (cs bs : List (ContentBlock V)) → use_ids (cs ++ bs) ≡ use_ids cs ++ use_ids bs
  use_ids-append [] bs = refl
  use_ids-append (ContentBlock.tool_use id _ _ ∷ cs) bs =
      ap (λ (ids : List Text). id ∷ ids) (use_ids-append cs bs)
  use_ids-append (ContentBlock.text _ ∷ cs) bs = use_ids-append cs bs
  use_ids-append (ContentBlock.thinking _ _ ∷ cs) bs = use_ids-append cs bs
  use_ids-append (ContentBlock.tool_result _ _ _ ∷ cs) bs = use_ids-append cs bs
  use_ids-append (ContentBlock.opaque _ _ _ ∷ cs) bs = use_ids-append cs bs
