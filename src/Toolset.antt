-- ===== src/Toolset.antt =====
-- crates/core/src/tool.rs, `Toolset`: the registry of an agent's tools. A tool is what it says of
-- itself; `serde_json::Value` is `V`, `check` is the function `validate` on a schema and an input, and
-- `any_object` the schema that asks for an object only. An error is its message.
use kyora.Base.{
  Bool, true, not, ◌||◌, ◌≡◌, refl, Option, none, some, List, [], ◌∷◌, ◌++◌, map, Text, codes,
  text_eq, if◌then◌else◌, any, Outcome, ok, err, ◌>>=◌,
}
use kyora.Base.TextMaps.{lookup_text, insert_text}
use kyora.Protocol.{ToolSpec}
use kyora.Provider.Retry.{is_some}

-- `Tool`, but for `call`.
pub record LocalTool (V : Type 0) : Type 0 where
  pub spec : ToolSpec V
  pub large_input : Bool
  pub validate_locally : Bool

-- The value of an entry: the specification as it was frozen, and the tool.
pub record Registered (V : Type 0) : Type 0 where
  pub spec : ToolSpec V
  pub tool : LocalTool V

-- `Toolset`; `own_validation` is a set of names.
pub record Toolset (V : Type 0) : Type 0 where
  pub entries : List (Text × Registered V)
  pub own_validation : List Text

abbrev pub has_name : Text → List Text → Bool
has_name name names = any (λ n. text_eq n name) names

module _ {V : Type 0} where
  abbrev pub frozen : LocalTool V → ToolSpec V
  frozen tool = record tool.spec { large_input = tool.large_input }

  -- One more tool, whose name is new.
  unfoldable pub add_tool :
      LocalTool V → List (Text × Registered V) → Outcome Text (List (Text × Registered V))
  unfolding insert_text
  add_tool tool entries =
      if is_some (lookup_text tool.spec.name entries)
      then err (codes "duplicate tool name")
      else ok (insert_text tool.spec.name (record { spec = frozen tool; tool = tool }) entries)

  unfoldable pub add_tools :
      List (LocalTool V) → List (Text × Registered V) → Outcome Text (List (Text × Registered V))
  unfolding add_tool
  add_tools [] entries = ok entries
  add_tools (tool ∷ tools) entries =
      let rest = λ (next : List (Text × Registered V)). add_tools tools next in
      add_tool tool entries >>= rest

  -- `Toolset::new`
  unfoldable pub new_toolset : List (LocalTool V) → Outcome Text (Toolset V)
  unfolding add_tools
  new_toolset tools = do
    entries ← add_tools tools []
    ok (record { entries = entries; own_validation = [] })

  -- `Toolset::with_own_validation`
  unfoldable pub with_own_validation : Toolset V → LocalTool V → Outcome Text (Toolset V)
  unfolding add_tool
  with_own_validation t tool = do
    entries ← add_tool tool t.entries
    ok (record { entries = entries; own_validation = tool.spec.name ∷ t.own_validation })

  -- The loop of `select`.
  unfoldable pub select_entries :
      Toolset V → List Text → List (Text × Registered V) → Outcome Text (List (Text × Registered V))
  unfolding insert_text
  select_entries t [] entries = ok entries
  select_entries t (name ∷ names) entries =
      let rest = λ (next : List (Text × Registered V)). select_entries t names next in
      (elim (lookup_text name t.entries) [
        | none ↦ err (codes "unknown tool: " ++ name)
        | some entry ↦ ok (insert_text name entry entries)
      ])
      >>= rest

  unfoldable pub kept_names : List (Text × Registered V) → List Text → List Text
  kept_names entries [] = []
  kept_names entries (name ∷ names) =
      let rest = kept_names entries names in
      if is_some (lookup_text name entries) then name ∷ rest else rest

  -- `Toolset::select`; without names all tools are selected.
  unfoldable pub select_tools : Toolset V → Option (List Text) → Outcome Text (Toolset V)
  unfolding select_entries kept_names
  select_tools t none = ok t
  select_tools t (some names) = do
    entries ← select_entries t names []
    ok (record { entries = entries; own_validation = kept_names entries t.own_validation })

  -- `Toolset::specs`
  unfoldable pub specs : Toolset V → List (ToolSpec V)
  specs t = map (λ e. e.1.spec) t.entries

  abbrev pub tool_of : Option (Registered V) → Option (LocalTool V)
  tool_of none = none
  tool_of (some entry) = some entry.tool

  -- `Toolset::get`
  unfoldable pub get_tool : Toolset V → Text → Option (LocalTool V)
  get_tool t name = tool_of (lookup_text name t.entries)

  module _ (check : V → V → Option Text) (any_object : V) where
    abbrev pub validate_entry : Bool → Text → Option (Registered V) → V → Option Text
    validate_entry own name none input = some (codes "unknown tool: " ++ name)
    validate_entry own name (some entry) input =
        if own || not entry.tool.validate_locally
        then check any_object input
        else check entry.spec.input_schema input

    -- `Toolset::validate`, with its error.
    unfoldable pub validate_call : Toolset V → Text → V → Option Text
    unfolding text_eq
    validate_call t name input =
        validate_entry (has_name name t.own_validation) name (lookup_text name t.entries) input

    known_entry :
        (own : Bool) (name : Text) (entry : Option (Registered V)) (input : V)
        → validate_entry own name entry input ≡ none
        → is_some (tool_of entry) ≡ true
    known_entry own name none input h = cc
    known_entry own name (some entry) input h = refl

    -- A call that validates is of a tool that `get` finds.
    pub validate_call-get_tool :
        (t : Toolset V) (name : Text) (input : V)
        → validate_call t name input ≡ none
        → is_some (get_tool t name) ≡ true
    unfolding validate_call get_tool
    validate_call-get_tool t name input h =
        known_entry (has_name name t.own_validation) name (lookup_text name t.entries) input h
