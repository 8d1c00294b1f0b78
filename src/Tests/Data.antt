-- ===== src/Tests/Data.antt =====
-- The theorems on the protocol's data and the task updater at concrete inputs.
use atlasic.Prelude.{◌≡◌, ◌↔◌, String, none, some, List, [], ◌∷◌, string_eq}
use atlasic.A2a.{working, Task, Artifact, role_agent, new_message, new_text_part, no_options}
use atlasic.A2a.Validation.{validate_task}
use atlasic.A2a.Validation.Meaning.{IsValidTask, validate_task_iff}
use atlasic.Updater.{created_task, new_task_updater}
use atlasic.Updater.Replay.{replay_from, view, changes, adds, sets, upserts, Change, replay-changes}
use atlasic.Tests.Fixtures.{hello, status_of_state}

abbrev first_task : Task
first_task = created_task "task" "context" hello

validate_task_iff_example : (validate_task first_task ≡ none) ↔ IsValidTask first_task
validate_task_iff_example = validate_task_iff first_task

abbrev artifact_of : String → String → Artifact
artifact_of id text = record {
  artifact_id = id;
  name = "";
  description = "";
  parts = new_text_part text ∷ [];
  extensions = [];
  metadata = [];
}

abbrev three_changes : List Change
three_changes =
    sets (status_of_state working)
    ∷ adds (new_message "m2" role_agent (new_text_part "done" ∷ []) no_options)
    ∷ upserts (artifact_of "a1" "x")
    ∷ []

replay-changes_example :
    replay_from
      (some (view first_task))
      (changes (new_task_updater first_task 1) three_changes).pending_events
    ≡ some (view (changes (new_task_updater first_task 1) three_changes).task)
replay-changes_example = replay-changes first_task 1 three_changes
