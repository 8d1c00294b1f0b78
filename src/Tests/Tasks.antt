-- ===== src/Tests/Tasks.antt =====
-- The service's theorems at concrete inputs.
use atlasic.Prelude.{◌≡◌, refl, true, false, some, none, [], ◌∷◌, ◌++◌, string_eq, pair_eq}
use atlasic.Prelude.Table.{lookup}
use atlasic.Prelude.Exec.{ok, err, rpc}
use atlasic.A2a.{
  role_agent, is_terminal, is_interrupted, can_cancel, canceled, new_message, new_text_part,
  no_options, error_code_task_not_found, Artifact,
}
use atlasic.Storage.FileSystem.{file_system, new_file_system_storage}
use atlasic.Storage.FileSystem.Laws.{file_system_laws}
use atlasic.Updater.{TaskUpdater, creation_updater}
use atlasic.Service.{apply_task_updates}
use atlasic.Service.Coherence.{Announced, IsCurrent, OthersKept}
use atlasic.Service.Updates.{Written, apply_task_updates-Written}
use atlasic.Service.Writes.{status_of}
use atlasic.Service.Messages.{process_message, cancel_task}
use atlasic.Service.Messages.Accepted.{
  from_user, process_message-new, process_message-existing, cancel_task-IsCurrent,
}
use atlasic.Service.Messages.Refused.{process_message-closed}
use atlasic.Service.Jobs.{Agent, returns, adds_message, Job, TaskHandleParams, process_job}
use atlasic.Service.Jobs.Outcomes.{Concluded, agent_run, process_job-Concluded}
use atlasic.Tests.Fixtures.{
  settings, queue, hello, again, new_server, new_storage-IsReady, started, started_task,
  started-IsCurrent,
}

process_message-new_example :
    let (r, s') = process_message settings file_system queue hello new_server in
    (r ≡ ok ("task", "context", true))
    × IsCurrent file_system file_system_laws s'.storage started_task
    × OthersKept file_system file_system_laws started_task new_file_system_storage s'.storage
    × Announced settings file_system queue file_system_laws started_task 2 new_server s'
unfolding new_message lookup
process_message-new_example =
    process_message-new settings file_system queue file_system_laws hello new_server
      new_storage-IsReady refl refl refl refl

process_message-existing_example :
    let (r, s') = process_message settings file_system queue again started in
    (r ≡ ok ("task", "context", false))
    × IsCurrent file_system file_system_laws s'.storage
        (record started_task { history = started_task.history ++ from_user "m2" again ∷ [] })
    × OthersKept file_system file_system_laws started_task started.storage s'.storage
    × Announced settings file_system queue file_system_laws started_task started.generated started
        s'
unfolding is_terminal is_interrupted new_message
process_message-existing_example =
    process_message-existing settings file_system queue file_system_laws started_task again started
      started-IsCurrent refl refl refl refl refl

cancel_task-IsCurrent_example :
    let (r, s') = cancel_task settings file_system queue "task" started in
    let parts = some (new_text_part "Task cancelled by user" ∷ []) in
    let t' = record started_task {
      status =
          status_of settings file_system queue file_system_laws started.generated canceled parts
            no_options;
    } in
    (r ≡ ok t')
    × IsCurrent file_system file_system_laws s'.storage t'
    × OthersKept file_system file_system_laws started_task started.storage s'.storage
unfolding can_cancel
cancel_task-IsCurrent_example =
    cancel_task-IsCurrent settings file_system queue file_system_laws started_task started
      started-IsCurrent refl

process_message-closed_example :
    process_message settings file_system queue again new_server
    ≡ (err (rpc error_code_task_not_found), new_server)
unfolding lookup
process_message-closed_example =
    process_message-closed settings file_system queue file_system_laws again new_server
      new_storage-IsReady refl refl refl tt

-- An agent that says something and returns a message.
abbrev echo : TaskHandleParams → Agent
echo params =
    adds_message (new_text_part "hello" ∷ []) no_options
      (λ r. returns (some (new_message "m3" role_agent (new_text_part "done" ∷ []) no_options)))

abbrev job : Job
job = record {
  config = record {
    task_id = "task";
    context_id = "context";
    incoming_message_id = "";
    accepted_output_modes = [];
  };
  complete_result = ok tt;
}

process_job-Concluded_example :
    let (outcome, last, s') =
      agent_run settings file_system queue file_system_laws echo job started_task started in
    Concluded settings file_system queue file_system_laws started_task started.storage job outcome
      last
      (process_job settings file_system queue none echo job started)
unfolding is_terminal
process_job-Concluded_example =
    process_job-Concluded settings file_system queue file_system_laws started_task echo job started
      started-IsCurrent refl refl

abbrev report : Artifact
report = record {
  artifact_id = "a1";
  name = "report";
  description = "";
  parts = new_text_part "done" ∷ [];
  extensions = [];
  metadata = [];
}

abbrev first_updater : TaskUpdater
first_updater = creation_updater "task" "context" hello

apply_task_updates-Written_example :
    ((apply_task_updates settings file_system queue first_updater new_server).0
      ≡ ok (record first_updater { version = 1 }))
    × Written settings file_system queue file_system_laws first_updater new_server
        (apply_task_updates settings file_system queue first_updater new_server).1
unfolding creation_updater lookup
apply_task_updates-Written_example =
    apply_task_updates-Written settings file_system queue file_system_laws first_updater new_server
      (record { ready = new_storage-IsReady; version = refl; can_save = tt }) (λ e. cc)

-- An updater that claims a version that the empty storage does not have.
abbrev late_updater : TaskUpdater
late_updater = record first_updater { initial_version = 3 }
