-- ===== src/Service/Messages/PushConfigs.antt =====
-- The push notification config methods of `AgentService` (atlasic.go).
use atlasic.Prelude.{String, true, false, ◌≡◌, refl, [], string_eq, pair_eq, beq_self}
use atlasic.Prelude.Exec.{Result, ok, err, rpc, is_push_config_not_found}
use atlasic.A2a.{
  TaskPushNotificationConfig, error_code_invalid_params, error_code_push_notification_not_supported,
}
use atlasic.Storage.{Storage}
use atlasic.Storage.FileSystem.{file_system}
use atlasic.Storage.FileSystem.PushConfigs.{
  get_push_config-save_push_config, get_push_config-delete_push_config,
}
use atlasic.Service.{Settings, JobQueue, State, push_notifications_enabled}
use atlasic.Service.Messages.{
  set_task_push_notification_config, get_task_push_notification_config,
  list_task_push_notification_config, delete_task_push_notification_config,
}

-- The config with the id that the server generates.
abbrev pub with_id : TaskPushNotificationConfig → String → TaskPushNotificationConfig
with_id x id = record x { config = record x.config { id = id } }

module _ (c : Settings) (st : Storage) (q : JobQueue) where
  abbrev pub not_supported {ℓ} : {A : Type ℓ} → Result A
  not_supported = err (rpc error_code_push_notification_not_supported)

  -- Where push notifications are not enabled, each of the four methods is refused with the code for
  -- that, and the service is left as it was.
  pub push_config_methods-disabled :
      (x : TaskPushNotificationConfig) (task_id config_id : String) (s : State c st q)
      → push_notifications_enabled c ≡ false
      → (set_task_push_notification_config c st q x s ≡ (not_supported, s))
        × (get_task_push_notification_config c st q task_id config_id s ≡ (not_supported, s))
        × (list_task_push_notification_config c st q task_id s ≡ (not_supported, s))
        × (delete_task_push_notification_config c st q task_id config_id s ≡ (not_supported, s))
  unfolding set_task_push_notification_config get_task_push_notification_config
      list_task_push_notification_config delete_task_push_notification_config
  push_config_methods-disabled x task_id config_id s off = rw off (refl, refl, refl, refl)

module _ (c : Settings) (q : JobQueue) (on : push_notifications_enabled c ≡ true) where
  -- On a file system backend that works, a config with a valid endpoint is saved under an id that
  -- the server generates, whatever id the client gave, is returned with it, and is what the method
  -- for reading it returns then.
  pub get_config-set_config :
      (x : TaskPushNotificationConfig) (s : State c file_system q)
      → s.storage.faults ≡ []
      → c.validate_endpoint (with_id x (c.push_config_id s.generated)).config ≡ ok tt
      → let x' = with_id x (c.push_config_id s.generated) in
        let (r, s') = set_task_push_notification_config c file_system q x s in
        (r ≡ ok x')
        × ((get_task_push_notification_config c file_system q x'.task_id x'.config.id s').0 ≡ ok x')
  unfolding set_task_push_notification_config get_task_push_notification_config
  get_config-set_config x s works valid =
      let id : String = c.push_config_id s.generated in
      let x' : TaskPushNotificationConfig = with_id x id in
      let (saved, read) = get_push_config-save_push_config s.storage works x' x.task_id id in
      rw (on, valid, saved, read, beq_self {A = String × String} (x.task_id, id)) (refl, refl)

  -- On a file system backend that works, a config that has been deleted, or whose deletion failed
  -- because it was not there, is reported by the method for reading it as invalid parameters.
  pub get_config-delete_config :
      (task_id config_id : String) (s : State c file_system q)
      → s.storage.faults ≡ []
      → let (r, s') = delete_task_push_notification_config c file_system q task_id config_id s in
        (get_task_push_notification_config c file_system q task_id config_id s').0
        ≡ err (rpc error_code_invalid_params)
  unfolding delete_task_push_notification_config get_task_push_notification_config
      is_push_config_not_found
  get_config-delete_config task_id config_id s works =
      rw
        (
          on,
          get_push_config-delete_push_config s.storage works task_id config_id task_id config_id,
          beq_self {A = String × String} (task_id, config_id),
        )
        refl
