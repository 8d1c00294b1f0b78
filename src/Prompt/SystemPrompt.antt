-- ===== src/Prompt/SystemPrompt.antt =====
-- A task in a system prompt, and the short forms of statuses, artifacts and parts
-- (prompt/formatter.go).
use atlasic.Prelude.{
  String, not, ◌&&◌, ◌||◌, ℕ, ◌+◌, Option, none, some, List, [], ◌∷◌, if◌then◌else◌, length, drop,
  ltb,
}
use atlasic.Prelude.Texts.{joined}
use atlasic.Prelude.Numerals.{decimal}
use atlasic.A2a.{
  Kind, kind_text_part, kind_file_part, kind_data_part, FilePart, Part, Message, TaskStatus,
  Artifact, Task, role_text, state_text, new_text_part,
}
use atlasic.Prompt.Options.{Config}
use atlasic.Prompt.Contents.{text_of_parts}
use atlasic.Prompt.Tools.{add_artifact}
use atlasic.Prompt.Formatter.{
  Formatter, Writing, pure, ◌>>=◌, Held, generate_id, format_message_content, is_nil,
  has_references, set_tool_if, task_formatter, history_limit, start_of_history, user_message,
}

unfoldable pub task_information : Config → Task → String
task_information cfg task =
    if cfg.include_task_info
    then joined (
        "## Task Information\n- **Task ID**: " ∷ task.id ∷ "\n- **Context ID**: " ∷ task.context_id
        ∷ "\n\n" ∷ [])
    else ""

abbrev pub message_line : Option Message → String
message_line none = ""
message_line (some msg) =
    if is_nil msg.parts
    then ""
    else joined ("- **Status Message**: " ∷ text_of_parts msg.parts ∷ "\n" ∷ [])

unfoldable pub current_status : Config → Task → String
unfolding state_text text_of_parts
current_status cfg task =
    if cfg.include_status
    then joined (
        "## Current Status\n- **State**: "
        ∷ state_text task.status.state
        ∷ "\n"
        ∷ message_line task.status.message
        ∷ "\n"
        ∷ [])
    else ""

unfoldable pub note_of_cut : Config → ℕ → String
unfolding history_limit
note_of_cut cfg count =
    if ltb (history_limit cfg count) count
    then joined (
        "(Showing last "
        ∷ decimal (history_limit cfg count)
        ∷ " of "
        ∷ decimal count
        ∷ " messages - use `get_task_data` with data_type=\"full_history\" for complete history)\n\n"
        ∷ [])
    else ""

unfoldable pub write_messages : Config → ℕ → List Message → Writing String
unfolding format_message_content role_text
write_messages cfg i [] = pure ""
write_messages cfg i (msg ∷ messages) = do
  content ← format_message_content cfg msg
  rest ← write_messages cfg (i + 1) messages
  pure (
      joined (
        "**Message "
        ∷ decimal (i + 1)
        ∷ "** ("
        ∷ role_text msg.role
        ∷ "): "
        ∷ content
        ∷ "\n"
        ∷ rest
        ∷ []))

unfoldable pub conversation_summary : Config → Task → Writing String
unfolding write_messages start_of_history note_of_cut
conversation_summary cfg task =
    if cfg.include_history && not (is_nil task.history)
    then (do
      let start = start_of_history cfg (length task.history)
      written ← write_messages cfg start (drop start task.history)
      pure (
          joined (
            "## Conversation Summary\n"
            ∷ note_of_cut cfg (length task.history)
            ∷ written
            ∷ "\n"
            ∷ [])))
    else pure ""

abbrev pub artifact_line : Artifact → String → Writing String
artifact_line artifact id f = some (
  joined (
      "- **" ∷ artifact.name ∷ "**: " ∷ artifact.description
      ∷ " (use `get_task_data` with data_type=\"artifact\", id=\"" ∷ id ∷ "\")\n" ∷ []),
  record f { tool = add_artifact id artifact f.tool },
)

unfoldable pub write_artifact : Config → Artifact → Writing String
unfolding generate_id add_artifact
write_artifact cfg artifact =
    if cfg.include_artifacts
    then pure (joined ("- **" ∷ artifact.name ∷ "**: " ∷ artifact.description ∷ "\n" ∷ []))
    else (generate_id >>= artifact_line artifact)

unfoldable pub write_artifacts : Config → List Artifact → Writing String
unfolding write_artifact
write_artifacts cfg [] = pure ""
write_artifacts cfg (artifact ∷ artifacts) = do
  line ← write_artifact cfg artifact
  rest ← write_artifacts cfg artifacts
  pure (joined (line ∷ rest ∷ []))

unfoldable pub available_artifacts : Config → Task → Writing String
unfolding write_artifacts
available_artifacts cfg task = if is_nil task.artifacts then pure "" else do
  lines ← write_artifacts cfg task.artifacts
  pure (joined ("## Available Artifacts\n" ∷ lines ∷ "\n" ∷ []))

unfoldable pub write_task : Config → Task → Writing String
unfolding task_information current_status conversation_summary available_artifacts
write_task cfg task = do
  conversation ← conversation_summary cfg task
  artifacts ← available_artifacts cfg task
  pure
      (joined (task_information cfg task ∷ current_status cfg task ∷ conversation ∷ artifacts ∷ []))

abbrev pub task_prompt : Config → Held → Option (String × Formatter) → Option (String × Held)
task_prompt cfg held none = none
task_prompt cfg held (some (prompt, f)) =
    some (prompt, set_tool_if (has_references f.tool || not cfg.include_history) f.tool held)

unfoldable pub format_task_for_system : Config → Task → Held → Option (String × Held)
unfolding write_task task_formatter
format_task_for_system cfg task held =
    task_prompt cfg held (write_task cfg task (task_formatter task))

unfoldable pub format_status_for_system : TaskStatus → String
unfolding state_text
format_status_for_system status = joined ("**Status**: " ∷ state_text status.state ∷ "\n" ∷ [])

unfoldable pub format_status_for_messages : TaskStatus → List Message
unfolding state_text new_text_part
format_status_for_messages status =
    user_message (joined ("Current task status: " ∷ state_text status.state ∷ [])) ∷ []

unfoldable pub format_artifact_for_system : Artifact → String
format_artifact_for_system artifact =
    joined ("**Artifact**: " ∷ artifact.name ∷ " - " ∷ artifact.description ∷ "\n" ∷ [])

unfoldable pub format_artifact_for_messages : Artifact → List Message
unfolding new_text_part
format_artifact_for_messages artifact =
    user_message
      (joined ("Artifact available: " ∷ artifact.name ∷ " - " ∷ artifact.description ∷ []))
    ∷ []

abbrev pub file_line : Option FilePart → Option String
file_line none = none
file_line (some file) = some (joined ("**File**: " ∷ file.name ∷ "\n" ∷ []))

-- By the kind of the part.
unfoldable pub format_part_for_system : Kind → Part → Option String
format_part_for_system kind_text_part part = some (joined (part.text ∷ "\n" ∷ []))
format_part_for_system kind_file_part part = file_line part.file
format_part_for_system kind_data_part part = some "**Data**: [structured data]\n"
format_part_for_system _ part = some ""

abbrev pub file_message : Option FilePart → Option (List Message)
file_message none = none
file_message (some file) = some (user_message (joined ("File: " ∷ file.name ∷ [])) ∷ [])

unfoldable pub format_part_for_messages : Kind → Part → Option (List Message)
unfolding new_text_part
format_part_for_messages kind_text_part part = some (user_message part.text ∷ [])
format_part_for_messages kind_file_part part = file_message part.file
format_part_for_messages kind_data_part part = some (user_message "Structured data available" ∷ [])
format_part_for_messages _ part = some []
