-- ===== src/Runner/Parts.antt =====
-- The parts of a message that carry tool uses and their results (model/model.go).
--
-- Here a part's maps hold values by their Go type, which the code asks for.
use atlasic.Prelude.{
  String, Bool, true, false, not, ◌&&◌, ◌||◌, ◌≡◌, refl, Option, none, some, List, [], ◌∷◌, ◌==◌,
  string_eq, if◌then◌else◌, Bool-cases, Option-cases, inl, inr,
}
use atlasic.Prelude.Table.{Table, lookup, insert}
use atlasic.A2a.{Kind, kind_data_part, Part}

-- A string, a map as text, a list of parts, or a value of another type.
pub data Any : Type 0 where
  text : String → Any
  object : String → Any
  parts : List Part → Any
  other : Any

pub record DataPart : Type 0 where
  pub kind : Kind
  pub content : Table String Any
  pub metadata : Table String Any

-- What `ToolUse` and `ToolResult` have besides the metadata, which is the part's.
pub record Use : Type 0 where
  pub id : String
  pub tool_name : String
  pub arguments : String

pub record UseResult : Type 0 where
  pub id : String
  pub tool_name : String
  pub content : List Part

abbrev pub as_text : Option Any → Option String
as_text (some (text s)) = some s
as_text _ = none

abbrev pub as_object : Option Any → Option String
as_object (some (object s)) = some s
as_object _ = none

abbrev pub as_parts : Option Any → Option (List Part)
as_parts (some (parts ps)) = some ps
as_parts _ = none

abbrev pub is_data_part : Kind → Bool
is_data_part kind_data_part = true
is_data_part _ = false

abbrev pub is_text : String → Option String → Bool
is_text s none = false
is_text s (some t) = t == s

abbrev pub or_empty : Option String → String
or_empty none = ""
or_empty (some s) = s

unfoldable pub has_intent : String → DataPart → Bool
has_intent intent part =
    is_data_part part.kind && is_text intent (as_text (lookup "intent" part.metadata))

unfoldable pub new_tool_use_part : String → String → String → DataPart
new_tool_use_part id name arguments = record {
  kind = kind_data_part;
  content = ("tool_id", text id) ∷ ("tool_name", text name) ∷ ("arguments", object arguments) ∷ [];
  metadata = ("intent", text "tool_use") ∷ [];
}

unfoldable pub new_tool_result_part : String → String → List Part → DataPart
new_tool_result_part id name content = record {
  kind = kind_data_part;
  content = ("tool_id", text id) ∷ ("tool_name", text name) ∷ ("content", parts content) ∷ [];
  metadata = ("intent", text "tool_result") ∷ [];
}

abbrev pub use_from : String → Option String → Option String → Option Use
use_from id (some name) (some arguments) =
    if name == "" then none else some (record { id = id; tool_name = name; arguments = arguments })
use_from id _ _ = none

-- The id may be missing, the name may not.
unfoldable pub as_tool_use_part : DataPart → Option Use
unfolding has_intent
as_tool_use_part part =
    if has_intent "tool_use" part
    then use_from (or_empty (as_text (lookup "tool_id" part.content)))
        (as_text (lookup "tool_name" part.content)) (as_object (lookup "arguments" part.content))
    else none

abbrev pub result_from : Option String → Option String → Option (List Part) → Option UseResult
result_from (some id) (some name) (some content) =
    if id == "" || name == ""
    then none
    else some (record { id = id; tool_name = name; content = content })
result_from _ _ _ = none

-- Neither the id nor the name may be missing.
unfoldable pub as_tool_result_part : DataPart → Option UseResult
unfolding has_intent
as_tool_result_part part =
    if has_intent "tool_result" part
    then result_from (as_text (lookup "tool_id" part.content))
        (as_text (lookup "tool_name" part.content)) (as_parts (lookup "content" part.content))
    else none

abbrev pub add_found {ℓ} : {A : Type ℓ} → Option A → List A → List A
add_found none rest = rest
add_found (some a) rest = a ∷ rest

unfoldable pub get_tool_use_parts : List DataPart → List Use
get_tool_use_parts [] = []
get_tool_use_parts (part ∷ rest) = add_found (as_tool_use_part part) (get_tool_use_parts rest)

unfoldable pub get_tool_result_parts : List DataPart → List UseResult
get_tool_result_parts [] = []
get_tool_result_parts (part ∷ rest) =
    add_found (as_tool_result_part part) (get_tool_result_parts rest)

abbrev pub is_found {ℓ} : {A : Type ℓ} → Option A → Bool
is_found none = false
is_found (some a) = true

abbrev pub is_nil {ℓ} : {A : Type ℓ} → List A → Bool
is_nil [] = true
is_nil (a ∷ rest) = false

unfoldable pub has_tool_use_parts : List DataPart → Bool
has_tool_use_parts [] = false
has_tool_use_parts (part ∷ rest) =
    let later = has_tool_use_parts rest in if is_found (as_tool_use_part part) then true else later

unfoldable pub mark_reasoning : List DataPart → List DataPart
mark_reasoning [] = []
mark_reasoning (part ∷ rest) =
    record part { metadata = insert "intent" (text "reasoning") part.metadata }
    ∷ mark_reasoning rest

unfoldable pub is_reasoning : DataPart → Bool
is_reasoning part = is_text "reasoning" (as_text (lookup "intent" part.metadata))

-- A part that is made for a tool use is read back as that tool use, and is no result.
pub as_tool_use_part-new_tool_use_part :
    (id name arguments : String)
    → (name == "") ≡ false
    → (as_tool_use_part (new_tool_use_part id name arguments)
        ≡ some (record { id = id; tool_name = name; arguments = arguments }))
      × (as_tool_result_part (new_tool_use_part id name arguments) ≡ none)
unfolding as_tool_use_part as_tool_result_part new_tool_use_part lookup
as_tool_use_part-new_tool_use_part id name arguments named = (rw named refl, refl)

-- A part that is made for a result is read back as that result, and is no tool use; for a tool use
-- without an id, it is read back as nothing.
as_tool_result_part-new_tool_result_part :
    (id name : String) (content : List Part)
    → (name == "") ≡ false
    → (as_tool_result_part (new_tool_result_part id name content) ≡ (
        if id == "" then none else some (record { id = id; tool_name = name; content = content })))
      × (as_tool_use_part (new_tool_result_part id name content) ≡ none)
unfolding as_tool_use_part as_tool_result_part new_tool_result_part lookup
as_tool_result_part-new_tool_result_part id name content named = elim (Bool-cases (id == "")) [
  | inl empty ↦ rw empty (refl, refl)
  | inr given ↦ rw (given, named) (refl, refl)
]

-- What was read from a message is there exactly if the message was said to have it.
has_tool_use_parts_lem :
    (ps : List DataPart) → has_tool_use_parts ps ≡ not (is_nil (get_tool_use_parts ps))
unfolding has_tool_use_parts get_tool_use_parts
has_tool_use_parts_lem [] = refl
has_tool_use_parts_lem (part ∷ rest) = elim (Option-cases (as_tool_use_part part)) [
  | inl absent ↦ rw absent (has_tool_use_parts_lem rest)
  | inr (u, found) ↦ rw found refl
]
