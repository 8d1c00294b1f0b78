-- ===== src/Tests/Prompts.antt =====
-- The theorems on prompts at concrete inputs.
use atlasic.Prelude.{refl, ◌≡◌, none, some, List, [], ◌∷◌, String, string_eq, pos, arith}
use atlasic.Prelude.Texts.{concat, joined}
use atlasic.A2a.{
  kind_task, kind_file_part, role_user, Part, Message, Task, working, FilePart, new_message,
  new_text_part, no_options,
}
use atlasic.Prompt.Options.{Config, default_config, with_max_history}
use atlasic.Prompt.Tools.{Encoder}
use atlasic.Prompt.Formatter.{Held, format_message_for_messages, history_limit}
use atlasic.Prompt.SystemPrompt.{format_task_for_system}
use atlasic.Prompt.Builder.{text_block, message_block, text_of_blocks}
use atlasic.Prompt.Answers.{Answers, MessageShown}
use atlasic.Prompt.Histories.{
  format_message_for_messages-Shown, format_task_for_messages-Shown, TaskShown,
}
use atlasic.Prompt.Overwrites.{system_prompt-last_file, line_of_file}
use atlasic.Prompt.CutHistory.{note, format_task_for_system-cut}

abbrev encoder : Encoder
encoder = record {
  file_json = λ id file. none;
  artifact_json = λ artifact. none;
  history_json = λ messages. some "[]";
  task_json = λ task. none;
  kilobytes = λ n. "0.0";
}

abbrev report : FilePart
report = record { uri = ""; bytes = "UERG"; name = "report.pdf"; mime_type = "application/pdf" }

abbrev report_part : Part
report_part = record {
  kind = kind_file_part;
  text = "";
  file = some report;
  content = none;
  metadata = [];
}

abbrev with_report : Message
with_report = new_message "1" role_user (report_part ∷ []) no_options

abbrev question : Message
question = new_message "2" role_user (new_text_part "What is new?" ∷ []) no_options

-- The last message of a history only.
abbrev last_one : Config
last_one = with_max_history (pos 1) default_config

abbrev task_with : List Message → Task
task_with history = record {
  kind = kind_task;
  id = "task";
  context_id = "context";
  status = record { state = working; message = none; timestamp = none };
  history = history;
  artifacts = [];
  metadata = [];
}

format_message_for_messages-Shown_example :
    (shown : Message) × (after : Held) × (format_message_for_messages default_config with_report
        none
      ≡ some (shown ∷ [], after))
    × MessageShown (Answers encoder after) with_report shown
unfolding default_config new_message
format_message_for_messages-Shown_example =
    format_message_for_messages-Shown default_config refl encoder with_report none (tt, tt)

abbrev two_messages : Task
two_messages = task_with (question ∷ with_report ∷ [])

format_task_for_messages-Shown_example : TaskShown last_one encoder two_messages none 1
unfolding default_config with_max_history new_message new_text_part
format_task_for_messages-Shown_example =
    format_task_for_messages-Shown last_one refl encoder two_messages none refl
      ((tt, tt), ((tt, tt), tt))

system_prompt-last_file_example :
    (after : Held) × (text_of_blocks
        (text_block "Read this." ∷ message_block with_report default_config ∷ [])
        none
      ≡ some (concat "Read this." (line_of_file with_report report), after))
    × Answers encoder after "id_001" report
    × ((id : String) (other : FilePart) → Answers encoder after id other → id ≡ "id_001")
unfolding default_config new_message text_of_blocks
system_prompt-last_file_example =
    system_prompt-last_file default_config with_report report_part report refl refl refl refl
      encoder (text_block "Read this." ∷ []) none refl

abbrev two_questions : Task
two_questions = task_with (question ∷ question ∷ [])

format_task_for_system-cut_example :
    (heading : String) × (status : String) × (written : String) × (format_task_for_system last_one
        two_questions none
      ≡ some (
        joined (
            heading
            ∷ status
            ∷ joined ("## Conversation Summary\n" ∷ note 1 2 ∷ written ∷ "\n" ∷ [])
            ∷ ""
            ∷ []),
        none,
      ))
unfolding default_config with_max_history new_message new_text_part history_limit
format_task_for_system-cut_example =
    format_task_for_system-cut last_one two_questions none refl (omega arith)
      ((tt, tt), ((tt, tt), tt)) refl
