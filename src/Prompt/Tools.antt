-- ===== src/Prompt/Tools.antt =====
-- The tool by which a model reads the files, artifacts and history that a prompt leaves out
-- (prompt/tools.go).
--
-- The tool's maps are tables. What package encoding/json makes of a value, and how a float is
-- printed, are parameters (`Encoder`); the schema of the tool's arguments is left out.
use atlasic.Prelude.{
  String, ℕ, Option, none, some, List, [], ◌∷◌, ◌==◌, string_eq, if◌then◌else◌, length,
}
use atlasic.Prelude.Table.{Table, lookup, insert}
use atlasic.Prelude.Texts.{joined, byte_count}
use atlasic.Prelude.Numerals.{decimal}
use atlasic.A2a.{Part, Message, Artifact, Task, state_text, new_text_part}
use atlasic.Prompt.Contents.{
  FileData, with_metadata, raw_file, text_of_parts, first_text, history_in_markdown,
}

pub record TaskDataTool : Type 0 where
  pub task_id : String
  pub file_map : Table String FileData
  pub artifact_map : Table String Artifact
  pub full_history : List Message
  pub task_detail : Option Task

-- An encoding is `none` where `json.Marshal` fails.
pub record Encoder : Type 0 where
  pub file_json : String → FileData → Option String
  pub artifact_json : Artifact → Option String
  pub history_json : List Message → Option String
  pub task_json : Task → Option String
  pub kilobytes : ℕ → String

-- A value of `map[string]interface{}` that is a text, or one that is not.
pub data Argument : Type 0 where
  text : String → Argument
  other : Argument

pub data ToolError : Type 0 where
  data_type_missing id_missing unknown_data_type file_missing artifact_missing not_encoded :
      ToolError

pub data Answer : Type 0 where
  answer : Part → Answer
  refused : ToolError → Answer

unfoldable pub new_task_data_tool : String → TaskDataTool
new_task_data_tool task_id = record {
  task_id = task_id;
  file_map = [];
  artifact_map = [];
  full_history = [];
  task_detail = none;
}

unfoldable pub add_file : String → FileData → TaskDataTool → TaskDataTool
add_file id file tool = record tool { file_map = insert id file tool.file_map }

unfoldable pub add_artifact : String → Artifact → TaskDataTool → TaskDataTool
add_artifact id artifact tool = record tool { artifact_map = insert id artifact tool.artifact_map }

unfoldable pub set_full_history : List Message → TaskDataTool → TaskDataTool
set_full_history history tool = record tool { full_history = history }

unfoldable pub set_task_detail : Task → TaskDataTool → TaskDataTool
set_task_detail task tool = record tool { task_detail = some task }

abbrev pub encoded : Option String → Answer
encoded none = refused not_encoded
encoded (some json) = answer (new_text_part json)

-- `args[key].(string)`
abbrev pub as_text : Option Argument → Option String
as_text (some (text s)) = some s
as_text _ = none

abbrev pub with_id : Option String → (String → Answer) → Answer
with_id none next = refused id_missing
with_id (some id) next = next id

abbrev pub format_or_raw : Option String → String
format_or_raw none = "raw"
format_or_raw (some format) = format

module _ (encoder : Encoder) where
  -- Any other format is "raw".
  unfoldable pub file_in_format : String → String → FileData → Answer
  unfolding raw_file new_text_part
  file_in_format format id file =
      if format == "summary"
      then answer (
          with_metadata
            (("file_id", id)
              ∷ ("filename", file.filename)
              ∷ ("size", decimal (byte_count file.content))
              ∷ [])
            (new_text_part (
              joined (
                "File: "
                ∷ file.filename
                ∷ " ("
                ∷ encoder.kilobytes (byte_count file.content)
                ∷ " KB, "
                ∷ file.mime_type
                ∷ ")"
                ∷ []))))
      else if format == "json"
      then encoded (encoder.file_json id file)
      else answer (raw_file id file)

  abbrev pub found_file : String → String → Option FileData → Answer
  found_file format id none = refused file_missing
  found_file format id (some file) = file_in_format format id file

  unfoldable pub get_file_data : String → String → TaskDataTool → Answer
  unfolding file_in_format
  get_file_data id format tool = found_file format id (lookup id tool.file_map)

  unfoldable pub artifact_in_format : String → String → Artifact → Answer
  unfolding first_text text_of_parts new_text_part
  artifact_in_format format id artifact =
      if format == "summary"
      then answer (
          with_metadata (("artifact_id", id) ∷ ("name", artifact.name) ∷ []) (
            new_text_part (
              joined
                ("Artifact: " ∷ artifact.name ∷ "\nDescription: " ∷ artifact.description ∷ []))))
      else if format == "json"
      then encoded (encoder.artifact_json artifact)
      else if format == "markdown"
      then answer (
          new_text_part (
            joined (
              "# "
              ∷ artifact.name
              ∷ "\n\n**Description**: "
              ∷ artifact.description
              ∷ "\n\n**Content**:\n"
              ∷ text_of_parts artifact.parts
              ∷ [])))
      else answer (first_text id artifact artifact.parts)

  abbrev pub found_artifact : String → String → Option Artifact → Answer
  found_artifact format id none = refused artifact_missing
  found_artifact format id (some artifact) = artifact_in_format format id artifact

  unfoldable pub get_artifact_data : String → String → TaskDataTool → Answer
  unfolding artifact_in_format
  get_artifact_data id format tool = found_artifact format id (lookup id tool.artifact_map)

  unfoldable pub history_in_format : String → List Message → Answer
  unfolding history_in_markdown new_text_part
  history_in_format format [] = answer (new_text_part "No conversation history available")
  history_in_format format (msg ∷ messages) =
      if format == "json"
      then encoded (encoder.history_json (msg ∷ messages))
      else if format == "markdown"
      then answer (
          new_text_part (
            joined (
              "# Complete Conversation History\n\n" ∷ history_in_markdown 0 (msg ∷ messages) ∷ [])))
      else answer (
          with_metadata (("message_count", decimal (length (msg ∷ messages))) ∷ []) (
            new_text_part (
              joined (
                "Conversation history contains "
                ∷ decimal (length (msg ∷ messages))
                ∷ " messages"
                ∷ []))))

  unfoldable pub get_full_history : String → TaskDataTool → Answer
  unfolding history_in_format
  get_full_history format tool = history_in_format format tool.full_history

  unfoldable pub detail_in_format : String → Option Task → Answer
  unfolding new_text_part state_text
  detail_in_format format none = answer (new_text_part "No detailed task information available")
  detail_in_format format (some task) =
      if format == "json"
      then encoded (encoder.task_json task)
      else if format == "markdown"
      then answer (
          new_text_part (
            joined (
              "# Task Details\n\n**Task ID**: "
              ∷ task.id
              ∷ "\n**Context ID**: "
              ∷ task.context_id
              ∷ "\n**Status**: "
              ∷ state_text task.status.state
              ∷ "\n**Messages**: "
              ∷ decimal (length task.history)
              ∷ "\n**Artifacts**: "
              ∷ decimal (length task.artifacts)
              ∷ "\n\n## Current Status\nState: "
              ∷ state_text task.status.state
              ∷ "\n"
              ∷ [])))
      else answer (
          new_text_part (
            joined (
              "Task "
              ∷ task.id
              ∷ " in context "
              ∷ task.context_id
              ∷ " (status: "
              ∷ state_text task.status.state
              ∷ ")"
              ∷ [])))

  unfoldable pub get_task_detail : String → TaskDataTool → Answer
  unfolding detail_in_format
  get_task_detail format tool = detail_in_format format tool.task_detail

  abbrev pub by_type : Option String → Option String → String → TaskDataTool → Answer
  by_type none id format tool = refused data_type_missing
  by_type (some data_type) id format tool =
      if data_type == "file"
      then with_id id (λ i. get_file_data i format tool)
      else if data_type == "artifact"
      then with_id id (λ i. get_artifact_data i format tool)
      else if data_type == "full_history"
      then get_full_history format tool
      else if data_type == "task_detail"
      then get_task_detail format tool
      else refused unknown_data_type

  unfoldable pub execute : Table String Argument → TaskDataTool → Answer
  unfolding get_file_data get_artifact_data get_full_history get_task_detail
  execute args tool =
      by_type (as_text (lookup "data_type" args)) (as_text (lookup "id" args))
        (format_or_raw (as_text (lookup "format" args))) tool
