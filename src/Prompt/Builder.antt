-- ===== src/Prompt/Builder.antt =====
-- The builder of prompts and of messages for a model (prompt/builder.go).
--
-- A block's type and its data are one constructor. A panic of the formatter is `none`.
use atlasic.Prelude.{
  String, ℕ, Option, none, some, List, [], ◌∷◌, ◌++◌, ◌==◌, string_eq, if◌then◌else◌, length,
}
use atlasic.Prelude.Texts.{joined, trim_unicode_space, byte_count}
use atlasic.A2a.{Part, Message, TaskStatus, Artifact, Task, new_text_part}
use atlasic.Prompt.Options.{Config, ConfigOption, configured}
use atlasic.Prompt.Formatter.{
  Held, user_message, format_message_for_system, format_message_for_messages,
  format_task_for_messages,
}
use atlasic.Prompt.SystemPrompt.{
  format_task_for_system, format_status_for_system, format_status_for_messages,
  format_artifact_for_system, format_artifact_for_messages, format_part_for_system,
  format_part_for_messages,
}

pub data ContentBlock : Type 0 where
  text_block : String → ContentBlock
  task_block : Task → Config → ContentBlock
  message_block : Message → Config → ContentBlock
  status_block : TaskStatus → Config → ContentBlock
  artifact_block : Artifact → Config → ContentBlock
  part_block : Part → Config → ContentBlock

pub record Builder : Type 0 where
  pub content : List ContentBlock
  pub task_data_tool : Held

unfoldable pub new_builder : Builder
new_builder = record { content = []; task_data_tool = none }

abbrev pub write_block : ContentBlock → Builder → Builder
write_block block b = record b { content = b.content ++ block ∷ [] }

-- With the number of bytes that are written.
unfoldable pub write_string : String → Builder → ℕ × Builder
write_string s b = (byte_count s, write_block (text_block s) b)

unfoldable pub write_task : Task → List ConfigOption → Builder → Builder
unfolding configured
write_task task opts = write_block (task_block task (configured opts))

unfoldable pub write_message : Message → List ConfigOption → Builder → Builder
unfolding configured
write_message msg opts = write_block (message_block msg (configured opts))

unfoldable pub write_task_status : TaskStatus → List ConfigOption → Builder → Builder
unfolding configured
write_task_status status opts = write_block (status_block status (configured opts))

unfoldable pub write_artifact : Artifact → List ConfigOption → Builder → Builder
unfolding configured
write_artifact artifact opts = write_block (artifact_block artifact (configured opts))

unfoldable pub write_part : Part → List ConfigOption → Builder → Builder
unfolding configured
write_part part opts = write_block (part_block part (configured opts))

-- A result beside the tool as it is.
abbrev pub beside {ℓ} : {A : Type ℓ} → Held → Option A → Option (A × Held)
beside held none = none
beside held (some a) = some (a, held)

unfoldable pub format_block_for_system : ContentBlock → Held → Option (String × Held)
unfolding format_task_for_system format_message_for_system format_status_for_system
    format_artifact_for_system format_part_for_system
format_block_for_system (text_block s) held = some (s, held)
format_block_for_system (task_block task cfg) held = format_task_for_system cfg task held
format_block_for_system (message_block msg cfg) held = format_message_for_system cfg msg held
format_block_for_system (status_block status cfg) held =
    some (format_status_for_system status, held)
format_block_for_system (artifact_block artifact cfg) held =
    some (format_artifact_for_system artifact, held)
format_block_for_system (part_block part cfg) held =
    beside held (format_part_for_system part.kind part)

unfoldable pub format_block_for_messages : ContentBlock → Held → Option (List Message × Held)
unfolding new_text_part format_task_for_messages format_message_for_messages
    format_status_for_messages format_artifact_for_messages format_part_for_messages
format_block_for_messages (text_block s) held =
    some (if trim_unicode_space s == "" then [] else user_message (trim_unicode_space s) ∷ [], held)
format_block_for_messages (task_block task cfg) held = format_task_for_messages cfg task held
format_block_for_messages (message_block msg cfg) held = format_message_for_messages cfg msg held
format_block_for_messages (status_block status cfg) held =
    some (format_status_for_messages status, held)
format_block_for_messages (artifact_block artifact cfg) held =
    some (format_artifact_for_messages artifact, held)
format_block_for_messages (part_block part cfg) held =
    beside held (format_part_for_messages part.kind part)

abbrev pub then_text : String → Option (String × Held) → Option (String × Held)
then_text s none = none
then_text s (some (rest, held)) = some (joined (s ∷ rest ∷ []), held)

abbrev pub proceed_text :
    (Held → Option (String × Held)) → Option (String × Held) → Option (String × Held)
proceed_text next none = none
proceed_text next (some (s, held)) = then_text s (next held)

unfoldable pub text_of_blocks : List ContentBlock → Held → Option (String × Held)
unfolding format_block_for_system
text_of_blocks [] held = some ("", held)
text_of_blocks (block ∷ blocks) held =
    proceed_text (text_of_blocks blocks) (format_block_for_system block held)

abbrev pub then_messages :
    List Message → Option (List Message × Held) → Option (List Message × Held)
then_messages ms none = none
then_messages ms (some (rest, held)) = some (ms ++ rest, held)

abbrev pub proceed_messages :
    (Held → Option (List Message × Held))
    → Option (List Message × Held)
    → Option (List Message × Held)
proceed_messages next none = none
proceed_messages next (some (ms, held)) = then_messages ms (next held)

unfoldable pub messages_of_blocks : List ContentBlock → Held → Option (List Message × Held)
unfolding format_block_for_messages
messages_of_blocks [] held = some ([], held)
messages_of_blocks (block ∷ blocks) held =
    proceed_messages (messages_of_blocks blocks) (format_block_for_messages block held)

abbrev pub with_held {ℓ} : {A : Type ℓ} → Builder → Option (A × Held) → Option (A × Builder)
with_held b none = none
with_held b (some (a, held)) = some (a, record b { task_data_tool = held })

-- `String`
unfoldable pub system_prompt : Builder → Option (String × Builder)
unfolding text_of_blocks
system_prompt b = with_held b (text_of_blocks b.content b.task_data_tool)

-- `Messages`
unfoldable pub messages : Builder → Option (List Message × Builder)
unfolding messages_of_blocks
messages b = with_held b (messages_of_blocks b.content b.task_data_tool)

unfoldable pub get_task_data_tool : Builder → Held
get_task_data_tool b = b.task_data_tool

unfoldable pub reset : Builder → Builder
reset b = record { content = []; task_data_tool = none }

unfoldable pub block_count : Builder → ℕ
block_count b = length b.content
