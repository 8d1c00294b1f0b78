-- ===== src/Prompt/Formatter.antt =====
-- How tasks, messages and the rest are written to a prompt, or made messages for a model
-- (prompt/formatter.go).
--
-- A formatter counts the ids that it gives, and fills the tool that the prompt refers to. Where the
-- source reads the name of a file that a part does not have, it panics: `none`. `Held` is the
-- builder's tool, which a formatter sets. A config is never nil here.
use atlasic.Prelude.{
  String, Bool, true, false, not, ◌&&◌, ◌||◌, ℕ, zero, suc, ◌+◌, ◌-◌, Option, none, some, List, [],
  ◌∷◌, ◌++◌, if◌then◌else◌, length, drop, ltb, pos, negsuc,
}
use atlasic.Prelude.Texts.{joined, concat}
use atlasic.Prelude.Numerals.{decimal, pad_zeros}
use atlasic.A2a.{
  Kind, kind_text_part, kind_file_part, kind_data_part, other_kind, role_user, FilePart, Part,
  Message, Task, role_text, new_text_part,
}
use atlasic.Prompt.Options.{Config}
use atlasic.Prompt.Contents.{FileData}
use atlasic.Prompt.Tools.{
  TaskDataTool, new_task_data_tool, add_file, set_full_history, set_task_detail,
}

pub record Formatter : Type 0 where
  pub id_counter : ℕ
  pub tool : TaskDataTool

abbrev pub Writing : Type 0 → Type 0
Writing A = Formatter → Option (A × Formatter)

abbrev pub pure : {A : Type 0} → A → Writing A
pure a f = some (a, f)

abbrev pub proceed :
    {A B : Type 0} → (A → Writing B) → Option (A × Formatter) → Option (B × Formatter)
proceed next none = none
proceed next (some (a, f)) = next a f

infixl 10 ◌>>=◌
abbrev pub ◌>>=◌ : {A B : Type 0} → Writing A → (A → Writing B) → Writing B
◌>>=◌ m next f = proceed next (m f)

abbrev pub Held : Type 0
Held = Option TaskDataTool

unfoldable pub id_of : ℕ → String
id_of n = concat "id_" (pad_zeros 3 (decimal n))

unfoldable pub generate_id : Writing String
unfolding id_of
generate_id f = some (id_of (f.id_counter + 1), record f { id_counter = f.id_counter + 1 })

abbrev pub file_data : FilePart → FileData
file_data file = record { filename = file.name; content = file.bytes; mime_type = file.mime_type }

abbrev pub file_reference : String → String → String
file_reference name id = joined (
    "📎 **File**: " ∷ name ∷ " (use `get_task_data` with data_type=\"file\", id=\"" ∷ id ∷ "\")"
    ∷ [])

abbrev pub file_added : FilePart → String → Writing String
file_added file id f =
    some (file_reference file.name id, record f { tool = add_file id (file_data file) f.tool })

-- The file goes to the tool under a new id, and a reference to the text.
unfoldable pub refer_to : Option FilePart → Writing String
unfolding generate_id add_file
refer_to none f = none
refer_to (some file) f = proceed (file_added file) (generate_id f)

unfoldable pub name_of : Option FilePart → Writing String
name_of none f = none
name_of (some file) f = some (joined ("[File: " ∷ file.name ∷ "]" ∷ []), f)

abbrev pub write_part : Config → Kind → Part → Writing String
write_part cfg kind_text_part part = pure part.text
write_part cfg kind_file_part part =
    if cfg.include_file_parts then name_of part.file else refer_to part.file
write_part cfg kind_data_part part = pure "📊 **Data**: [structured data available via tools]"
write_part cfg _ part = pure ""

unfoldable pub write_parts : Config → Bool → List Part → Writing String
unfolding refer_to name_of
write_parts cfg first [] = pure ""
write_parts cfg first (part ∷ parts) = do
  written ← write_part cfg part.kind part
  rest ← write_parts cfg false parts
  pure (joined ((if first then "" else " ") ∷ written ∷ rest ∷ []))

unfoldable pub format_message_content : Config → Message → Writing String
unfolding write_parts
format_message_content cfg msg = write_parts cfg true msg.parts

abbrev pub as_text_part : String → List Part
as_text_part s = new_text_part s ∷ []

abbrev pub referred : String → Writing (List Part)
referred s = pure (as_text_part s)

abbrev pub optimize_part : Config → Kind → Part → Writing (List Part)
optimize_part cfg kind_text_part part = pure (part ∷ [])
optimize_part cfg kind_file_part part =
    if cfg.include_file_parts then pure (part ∷ []) else (refer_to part.file >>= referred)
optimize_part cfg kind_data_part part =
    pure (as_text_part "📊 **Data**: [structured data - use tools for access]")
optimize_part cfg _ part = pure []

unfoldable pub optimize_parts : Config → List Part → Writing (List Part)
unfolding refer_to new_text_part
optimize_parts cfg [] = pure []
optimize_parts cfg (part ∷ parts) = do
  optimized ← optimize_part cfg part.kind part
  rest ← optimize_parts cfg parts
  pure (optimized ++ rest)

-- The message without its kind, its context and its task.
abbrev pub optimized_from : Message → List Part → Message
optimized_from msg parts = record {
  kind = other_kind "";
  message_id = msg.message_id;
  context_id = "";
  task_id = "";
  role = msg.role;
  parts = parts;
  reference_task_ids = msg.reference_task_ids;
  extensions = msg.extensions;
  metadata = msg.metadata;
}

unfoldable pub optimize_message : Config → Message → Writing Message
unfolding optimize_parts
optimize_message cfg msg = do parts ← optimize_parts cfg msg.parts; pure (optimized_from msg parts)

abbrev pub is_nil {ℓ} : {A : Type ℓ} → List A → Bool
is_nil [] = true
is_nil (a ∷ rest) = false

abbrev pub has_references : TaskDataTool → Bool
has_references tool = not (is_nil tool.file_map) || not (is_nil tool.artifact_map)

abbrev pub set_tool_if : Bool → TaskDataTool → Held → Held
set_tool_if test tool held = if test then some tool else held

-- `markdownFormatter{builder: b}` and `NewTaskDataTool("current")`.
unfoldable pub new_formatter : Formatter
unfolding new_task_data_tool
new_formatter = record { id_counter = 0; tool = new_task_data_tool "current" }

unfoldable pub task_formatter : Task → Formatter
unfolding new_task_data_tool set_task_detail set_full_history
task_formatter task = record {
  id_counter = 0;
  tool = set_full_history task.history (set_task_detail task (new_task_data_tool task.id));
}

abbrev pub system_line : Message → Held → Option (String × Formatter) → Option (String × Held)
system_line msg held none = none
system_line msg held (some (content, f)) = some (
  joined ("**" ∷ role_text msg.role ∷ " Message**: " ∷ content ∷ "\n" ∷ []),
  set_tool_if (has_references f.tool) f.tool held,
)

unfoldable pub format_message_for_system : Config → Message → Held → Option (String × Held)
unfolding format_message_content new_formatter role_text
format_message_for_system cfg msg held =
    system_line msg held (format_message_content cfg msg new_formatter)

abbrev pub one_message : Held → Option (Message × Formatter) → Option (List Message × Held)
one_message held none = none
one_message held (some (msg, f)) = some (msg ∷ [], set_tool_if (has_references f.tool) f.tool held)

unfoldable pub format_message_for_messages : Config → Message → Held → Option (List Message × Held)
unfolding optimize_message new_formatter
format_message_for_messages cfg msg held = one_message held (optimize_message cfg msg new_formatter)

-- `maxHistory`: all of the history if the config's number is not positive.
unfoldable pub history_limit : Config → ℕ → ℕ
history_limit cfg count = elim cfg.max_history [
  | pos zero ↦ count
  | pos (suc n) ↦ suc n
  | negsuc n ↦ count
]

unfoldable pub start_of_history : Config → ℕ → ℕ
unfolding history_limit
start_of_history cfg count =
    if ltb (history_limit cfg count) count then count - history_limit cfg count else 0

abbrev pub user_message : String → Message
user_message text = record {
  kind = other_kind "";
  message_id = "";
  context_id = "";
  task_id = "";
  role = role_user;
  parts = as_text_part text;
  reference_task_ids = [];
  extensions = [];
  metadata = [];
}

unfoldable pub notice_of_cut : Config → ℕ → List Message
unfolding history_limit new_text_part
notice_of_cut cfg count =
    if ltb (history_limit cfg count) count
    then user_message (
        joined (
          "Previous conversation history contains "
          ∷ decimal count
          ∷ " messages (showing last "
          ∷ decimal (history_limit cfg count)
          ∷ "). Use `get_task_data` with data_type=\"full_history\" for complete history."
          ∷ []))
      ∷ []
    else []

unfoldable pub optimize_messages : Config → List Message → Writing (List Message)
unfolding optimize_message
optimize_messages cfg [] = pure []
optimize_messages cfg (msg ∷ messages) = do
  optimized ← optimize_message cfg msg
  rest ← optimize_messages cfg messages
  pure (optimized ∷ rest)

abbrev pub cut_by_config : Config → ℕ → Bool
cut_by_config cfg count = cfg.include_history && elim cfg.max_history [
  | pos zero ↦ false
  | pos (suc n) ↦ ltb (suc n) count
  | negsuc n ↦ false
]

unfoldable pub history_for_messages : Config → Task → Writing (List Message)
unfolding start_of_history notice_of_cut optimize_messages
history_for_messages cfg task =
    if cfg.include_history && not (is_nil task.history)
    then (do
      messages ←
          optimize_messages cfg (drop (start_of_history cfg (length task.history)) task.history)
      pure (notice_of_cut cfg (length task.history) ++ messages))
    else pure []

abbrev pub task_messages :
    Config → Task → Held → Option (List Message × Formatter) → Option (List Message × Held)
task_messages cfg task held none = none
task_messages cfg task held (some (messages, f)) = some (
  messages,
  set_tool_if (has_references f.tool || cut_by_config cfg (length task.history)) f.tool held,
)

unfoldable pub format_task_for_messages : Config → Task → Held → Option (List Message × Held)
unfolding history_for_messages task_formatter
format_task_for_messages cfg task held =
    task_messages cfg task held (history_for_messages cfg task (task_formatter task))
