-- ===== src/Updater.antt =====
-- `TaskUpdater` (task_updater.go): it changes its copy of a task and keeps the event for each
-- change. `NewTaskUpdater` copies the task, so the caller's task is never the one that changes.
pub mod Replay
pub mod Artifacts
use atlasic.Prelude.{
  ℕ, String, Bool, true, false, ◌==◌, string_eq, if◌then◌else◌, Option, none, some, List, [], ◌∷◌,
  ◌++◌,
}
use atlasic.A2a.{
  kind_task, kind_status_update, kind_artifact_update, submitted, is_terminal, Message, Task,
  TaskStatus, Artifact, StreamResponse, task_event, message_event, status_event, artifact_event,
}

pub record TaskUpdater : Type 0 where
  pub task : Task
  pub initial_version : ℕ
  pub version : ℕ
  pub pending_events : List StreamResponse

unfoldable pub new_task_updater : Task → ℕ → TaskUpdater
new_task_updater snapshot_task snapshot_version = record {
  task = snapshot_task;
  initial_version = snapshot_version;
  version = snapshot_version;
  pending_events = [];
}

-- `cloned` in `AddMessage`: the message with the ids of its context and its task.
abbrev pub cloned : Task → Message → Message
cloned t m = record m { context_id = t.context_id; task_id = t.id }

-- The history gets the message as it came, and the event gets the clone.
unfoldable pub add_message : Message → TaskUpdater → TaskUpdater
add_message m tu = record tu {
  task = record tu.task { history = tu.task.history ++ m ∷ [] };
  pending_events = tu.pending_events ++ message_event (cloned tu.task m) ∷ [];
}

unfoldable pub update_status : TaskStatus → TaskUpdater → TaskUpdater
unfolding is_terminal
update_status status tu = record tu {
  task = record tu.task { status = status };
  pending_events =
      tu.pending_events
      ++ status_event (record {
        kind = kind_status_update;
        task_id = tu.task.id;
        context_id = tu.task.context_id;
        status = status;
        final = is_terminal status.state;
        metadata = [];
      })
        ∷ [];
}

-- The loop of `UpsertArtifact` and the append after it.
unfoldable pub upsert : Artifact → List Artifact → List Artifact
upsert a [] = a ∷ []
upsert a (x ∷ xs) = if x.artifact_id == a.artifact_id then a ∷ xs else x ∷ upsert a xs

unfoldable pub upsert_artifact : Artifact → TaskUpdater → TaskUpdater
unfolding upsert
upsert_artifact a tu = record tu {
  task = record tu.task { artifacts = upsert a tu.task.artifacts };
  pending_events =
      tu.pending_events
      ++ artifact_event (record {
        kind = kind_artifact_update;
        task_id = tu.task.id;
        context_id = tu.task.context_id;
        artifact = a;
        appends = true;
        last_chunk = true;
        metadata = [];
      })
        ∷ [];
}

-- The task and the updater of `createNewTask`, with the creation event put in front.
abbrev pub created_task : String → String → Message → Task
created_task task_id context_id user_message = record {
  kind = kind_task;
  id = task_id;
  context_id = context_id;
  status = record { state = submitted; message = none; timestamp = none };
  history = user_message ∷ [];
  artifacts = [];
  metadata = [];
}

unfoldable pub creation_updater : String → String → Message → TaskUpdater
unfolding new_task_updater
creation_updater task_id context_id user_message =
    let tu = new_task_updater (created_task task_id context_id user_message) 0 in
    record tu { pending_events = task_event tu.task ∷ tu.pending_events }
