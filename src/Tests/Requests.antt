-- ===== src/Tests/Requests.antt =====
-- The theorems on whole requests at concrete inputs.
use atlasic.Prelude.{◌≡◌, refl, false, some, none, [], ◌∷◌, ◌++◌, string_eq, pair_eq, pos}
use atlasic.Prelude.Table.{lookup}
use atlasic.Prelude.Exec.{ok}
use atlasic.A2a.{new_message, TaskPushNotificationConfig}
use atlasic.Storage.{limit_task}
use atlasic.Storage.FileSystem.{file_system}
use atlasic.Storage.FileSystem.Laws.{file_system_laws}
use atlasic.Service.{Settings}
use atlasic.Service.Messages.{MessageSendConfiguration}
use atlasic.Service.Polling.{send_message}
use atlasic.Service.Polling.Sending.{send_message-new}
use atlasic.Tests.Fixtures.{
  settings, queue, hello, new_server, new_storage-IsReady, started, started_task,
}

abbrev in_background : MessageSendConfiguration
in_background = record {
  accepted_output_modes = [];
  blocking = false;
  history_length = some (pos 5);
}

send_message-new_example :
    let (r, end) =
      send_message settings file_system queue
        (record { message = hello; configuration = some in_background })
        []
        (λ s. s)
        new_server in
    (r ≡ ok (limit_task (pos 5) started_task))
    × (end.jobs
        ≡ started.jobs
          ++ record {
            task_id = "task";
            context_id = "context";
            incoming_message_id = "";
            accepted_output_modes = [];
          }
            ∷ [])
    × (end.storage ≡ started.storage)
unfolding new_message lookup
send_message-new_example =
    send_message-new settings file_system queue file_system_laws hello (some in_background) []
      (λ s. s) new_server new_storage-IsReady refl refl refl refl (λ x jobs. refl) refl (λ e. cc)

-- The endpoint comes with an id of the client's.
abbrev hook : TaskPushNotificationConfig
hook = record {
  task_id = "task";
  config = record {
    url = "https://example.com/hook";
    id = "mine";
    token = "";
    authentication = none;
  };
}

abbrev without_push : Settings
without_push = record settings { has_push_notifier = false }
