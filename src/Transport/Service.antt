-- ===== src/Transport/Service.antt =====
-- The library's own agent service (atlasic.go) behind the handler (transport/handler.go).
--
-- What others do between two polls is a list of rounds, and the agent's output modes are given.
use atlasic.Prelude.{Option, ℕ, String, List, [], string_eq}
use atlasic.Prelude.Exec.{Result, ◌>>=◌, pure}
use atlasic.A2a.Rpc.{task_result}
use atlasic.Storage.{Storage, Lawful}
use atlasic.Service.{Settings, JobQueue, State}
use atlasic.Service.Messages
use atlasic.Service.Messages.{
  cancel_task, set_task_push_notification_config, get_task_push_notification_config,
  list_task_push_notification_config, delete_task_push_notification_config,
}
use atlasic.Service.Polling.{Others, send_message, send_streaming_message, task_resubscription}
use atlasic.Transport.{AgentService, Codec, HttpRequest}
use atlasic.Transport.Handler.{HandlerConfig, Served}
use atlasic.Transport.Handler.Serving.{Handler, new_handler}

module _ (c : Settings) (st : Storage) (q : JobQueue) (ticks : List (Others c st q))
    (ending : Others c st q) (cut : Option ℕ) (modes : Result (List String)) where
  abbrev pub agent_service : AgentService (State c st q)
  agent_service = record {
    send_message =
        λ ctx params. (send_message c st q params ticks ending >>= λ task. pure (task_result task));
    send_streaming_message = λ ctx params. send_streaming_message c st q params ticks ending cut;
    get_task = λ ctx params. Messages.get_task c st q params.id params.history_length;
    cancel_task = λ ctx params. cancel_task c st q params.id;
    task_resubscription = λ ctx params. task_resubscription c st q params.id ticks ending cut;
    set_push_config = λ ctx config. set_task_push_notification_config c st q config;
    get_push_config = λ ctx params.
        get_task_push_notification_config c st q params.id params.push_notification_config_id;
    list_push_configs = λ ctx params. list_task_push_notification_config c st q params.id;
    delete_push_config = λ ctx params.
        delete_task_push_notification_config c st q params.id params.push_notification_config_id;
    supported_output_modes = λ ctx s. (modes, s);
  }

  module _ (laws : Lawful st) (codec : Codec) (config : HandlerConfig)
      (card : HttpRequest → Served (State c st q) → Served (State c st q)) where
    abbrev pub handler : Handler (State c st q)
    handler = new_handler agent_service codec config [] card
