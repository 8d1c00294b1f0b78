-- ===== src/Tests/Fixtures.antt =====
-- The settings, messages and disks that the tests share.
use atlasic.Prelude.{Bool, true, false, refl, none, List, [], ◌∷◌, ◌++◌, pair_eq, string_eq}
use atlasic.Prelude.Table.{lookup}
use atlasic.Prelude.Exec.{ok}
use atlasic.A2a.{
  role_user, kind_message, kind_status_update, completed, working, TaskState, Message, Task,
  TaskStatus, StreamResponse, status_event, new_text_part, no_options, new_message,
}
use atlasic.Storage.FileSystem
use atlasic.Storage.FileSystem.{Disk, file_system, new_file_system_storage}
use atlasic.Storage.FileSystem.Ready.{IsReady}
use atlasic.Storage.FileSystem.Laws.{file_system_laws}
use atlasic.Storage.FileSystem.Versions.{append_lem}
use atlasic.Service.{Settings, JobConfig, JobQueue, State}
use atlasic.Service.Coherence.{IsCurrent}
use atlasic.Service.Messages.{process_message}
use atlasic.Service.Messages.Accepted.{process_message-new, new_task}

abbrev pub settings : Settings
settings = record {
  disable_streaming = false;
  disable_push_notifications = false;
  has_push_notifier = true;
  message_id = λ n. "message";
  task_id = λ n. "task";
  context_id = λ n. "context";
  push_config_id = λ n. "config";
  now = λ n. "2025-01-01T00:00:00Z";
  validate_endpoint = λ p. ok tt;
}

-- A queue that takes every job.
abbrev pub queue : JobQueue
queue = record { Jobs = List JobConfig; enqueue = λ job jobs. (ok tt, jobs ++ job ∷ []) }

abbrev pub Server : Type 0
Server = State settings file_system queue

abbrev pub server_on : Disk → Server
server_on d = record { storage = d; jobs = []; generated = 0; notified = [] }

abbrev pub new_server : Server
new_server = server_on new_file_system_storage

abbrev pub hello : Message
hello = new_message "m1" role_user (new_text_part "hello" ∷ []) no_options

-- A second message, for the task that the first one made.
abbrev pub again : Message
again = record {
  kind = kind_message;
  message_id = "m2";
  context_id = "context";
  task_id = "task";
  role = role_user;
  parts = new_text_part "again" ∷ [];
  reference_task_ids = [];
  extensions = [];
  metadata = [];
}

pub new_storage-IsReady : IsReady new_file_system_storage
unfolding lookup
new_storage-IsReady = record { no_faults = refl; versions = λ key es v e. cc }

-- The server once it has taken the first message, and the task that it then has.
abbrev pub started : Server
started = (process_message settings file_system queue hello new_server).1

abbrev pub started_task : Task
started_task = new_task settings file_system queue file_system_laws hello new_server

pub started-IsCurrent : IsCurrent file_system file_system_laws started.storage started_task
unfolding new_message lookup
started-IsCurrent =
    (process_message-new settings file_system queue file_system_laws hello new_server
      new_storage-IsReady refl refl refl refl).1

abbrev pub status_of_state : TaskState → TaskStatus
status_of_state state = record { state = state; message = none; timestamp = none }

abbrev pub event_of : TaskState → Bool → StreamResponse
event_of state final = status_event (record {
  kind = kind_status_update;
  task_id = "task";
  context_id = "context";
  status = status_of_state state;
  final = final;
  metadata = [];
})

abbrev pub two_events : List StreamResponse
two_events = event_of working false ∷ event_of completed true ∷ []

-- A disk with a stream of two events.
abbrev pub log : Disk
log = (FileSystem.append "context" "task" 0 two_events new_file_system_storage).1

pub log-IsReady : IsReady log
log-IsReady =
    (append_lem "context" "task" 0 two_events new_file_system_storage new_storage-IsReady).0
