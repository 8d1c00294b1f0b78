-- ===== src/Service/Messages.antt =====
-- Messages and requests about tasks (atlasic.go): `processMessage` and what it calls, `GetTask`,
-- `CancelTask`, and the push notification configs.
pub mod Creation
pub mod Accepted
pub mod Refused
pub mod PushConfigs
use atlasic.Prelude.{
  ℕ, suc, String, Bool, true, false, not, ◌&&◌, Option, none, some, List, [], ◌∷◌, ◌==◌, string_eq,
  ℤ, negsuc, pos, if◌then◌else◌,
}
use atlasic.Prelude.Exec.{
  Exec, Result, ok, err, Error, pure, raise, wrapping, ◌>>=◌, ◌>>◌, wrap, rpc, is_task_not_found,
  is_push_config_not_found, wrap_result,
}
use atlasic.A2a.{
  Role, role_user, other_role, TaskState, canceled, is_terminal, is_interrupted, can_cancel, Part,
  Message, MessageOptions, no_options, new_message, new_text_part, Task, TaskStatus,
  TaskPushNotificationConfig, error_code_invalid_params, error_code_task_not_found,
  error_code_task_not_cancelable, error_code_push_notification_not_supported,
}
pub use atlasic.A2a.Rpc.{MessageSendConfiguration, MessageSendParams}
use atlasic.Storage.{Storage, history_length_all}
use atlasic.Service.{
  Settings, JobQueue, Service, JobConfig, State, on_storage, generate, create_new_task, add_message,
  update_status, push_notifications_enabled,
}

abbrev pub options_of : Message → MessageOptions
options_of m = record {
  reference_task_ids = m.reference_task_ids;
  extensions = m.extensions;
  metadata = m.metadata;
}

-- `Role != "" && Role != RoleUser`
abbrev pub is_foreign_role : Role → Bool
is_foreign_role role_user = false
is_foreign_role (other_role s) = not (s == "")
is_foreign_role _ = true

-- How a failed `Storage.GetTask` is reported to a client.
abbrev pub report_missing : Error → Error
report_missing e = if is_task_not_found e then rpc error_code_task_not_found else wrap e

abbrev pub reported : Result (Task × ℕ) → Result Task
reported (ok (t, version)) = ok t
reported (err e) = err (report_missing e)

module _ (c : Settings) (st : Storage) (q : JobQueue) where
  -- `task, _, err := s.Storage.GetTask(...)`, and the `if err != nil` after it.
  unfoldable pub get_or_report : String → ℤ → Exec (State c st q) Task
  get_or_report id h s = let (r, s') = on_storage c st q (st.get_task id h) s in (reported r, s')

  unfoldable pub guard_open : TaskState → Exec (State c st q) (Unit {0})
  guard_open state = if is_terminal state then raise (rpc error_code_invalid_params) else pure tt

  unfoldable pub process_existing_task : Message → Exec (State c st q) (String × String × Bool)
  unfolding get_or_report guard_open
  process_existing_task m = do
    existing ← get_or_report m.task_id history_length_all
    guard_open existing.status.state
    wrapping (add_message c st q m.task_id m.message_id role_user m.parts (options_of m))
    pure (m.task_id, existing.context_id, is_interrupted existing.status.state)

  unfoldable pub create_new_task_from_message :
      String → String → Message → Exec (State c st q) (Unit {0})
  create_new_task_from_message task_id context_id m = do
    create_new_task c st q task_id context_id
        (new_message m.message_id role_user m.parts (options_of m))
    pure tt

  -- `if x == "" { x = generate() }`
  abbrev pub or_generated : String → (ℕ → String) → Exec (State c st q) String
  or_generated x f = if x == "" then generate c st q f else pure x

  unfoldable pub process_new_task : Message → Exec (State c st q) (String × String × Bool)
  unfolding create_new_task_from_message
  process_new_task m = do
    context_id ← or_generated m.context_id c.context_id
    task_id ← generate c st q c.task_id
    wrapping (create_new_task_from_message task_id context_id m)
    pure (task_id, context_id, true)

  abbrev pub guard_role : Role → Exec (State c st q) (Unit {0})
  guard_role role = if is_foreign_role role then raise (rpc error_code_invalid_params) else pure tt

  -- The ids of the task and its context, and whether the agent is to be run.
  unfoldable pub process_message : Message → Exec (State c st q) (String × String × Bool)
  unfolding process_existing_task process_new_task
  process_message m = do
    guard_role m.role
    message_id ← or_generated m.message_id c.message_id
    let m' : Message = record m { message_id = message_id }
    if m.task_id == "" then process_new_task m' else process_existing_task m'

  abbrev pub length_or_all : Option ℤ → ℤ
  length_or_all none = history_length_all
  length_or_all (some h) = h

  -- The method `tasks/get`.
  unfoldable pub get_task : String → Option ℤ → Exec (State c st q) Task
  unfolding get_or_report
  get_task id history_length = get_or_report id (length_or_all history_length)

  abbrev pub guard_cancelable : TaskState → Exec (State c st q) (Unit {0})
  guard_cancelable state =
      if can_cancel state then pure tt else raise (rpc error_code_task_not_cancelable)

  -- `if err != nil { return nil, fmt.Errorf("...: %w", err) }`, of the last read of a task.
  abbrev pub reread : String → Exec (State c st q) Task
  reread id = do
    (task, version) ← wrapping (on_storage c st q (st.get_task id history_length_all))
    pure task

  -- The method `tasks/cancel`.
  unfoldable pub cancel_task : String → Exec (State c st q) Task
  unfolding get_or_report
  cancel_task id = do
    task ← get_or_report id (pos 1)
    guard_cancelable task.status.state
    wrapping (
        update_status c st q id canceled (some (new_text_part "Task cancelled by user" ∷ []))
          no_options)
    reread id

  abbrev pub guard_push : Exec (State c st q) (Unit {0})
  guard_push =
      if push_notifications_enabled c
      then pure tt
      else raise (rpc error_code_push_notification_not_supported)

  abbrev pub or_invalid : Result (Unit {0}) → Exec (State c st q) (Unit {0})
  or_invalid (ok u) = pure tt
  or_invalid (err e) = raise (rpc error_code_invalid_params)

  -- The server's id replaces the client's.
  unfoldable pub set_task_push_notification_config :
      TaskPushNotificationConfig → Exec (State c st q) TaskPushNotificationConfig
  unfolding push_notifications_enabled
  set_task_push_notification_config config = do
    guard_push
    id ← generate c st q c.push_config_id
    let config' : TaskPushNotificationConfig = record config {
      config = record config.config { id = id };
    }
    or_invalid (c.validate_endpoint config'.config)
    wrapping (on_storage c st q (st.save_push_config config'))
    pure config'

  abbrev pub report_missing_config {ℓ} : {A : Type ℓ} → Result A → Result A
  report_missing_config (ok a) = ok a
  report_missing_config (err e) =
      if is_push_config_not_found e then err (rpc error_code_invalid_params) else err (wrap e)

  abbrev pub reporting_config {ℓ} : {A : Type ℓ} → Exec (State c st q) A → Exec (State c st q) A
  reporting_config m s = let (r, s') = m s in (report_missing_config r, s')

  unfoldable pub get_task_push_notification_config :
      String → String → Exec (State c st q) TaskPushNotificationConfig
  unfolding push_notifications_enabled is_push_config_not_found
  get_task_push_notification_config task_id config_id = do
    guard_push
    reporting_config (on_storage c st q (st.get_push_config task_id config_id))

  unfoldable pub list_task_push_notification_config :
      String → Exec (State c st q) (List TaskPushNotificationConfig)
  unfolding push_notifications_enabled
  list_task_push_notification_config task_id = do
    guard_push
    wrapping (on_storage c st q (st.list_push_configs task_id))

  unfoldable pub delete_task_push_notification_config :
      String → String → Exec (State c st q) (Unit {0})
  unfolding push_notifications_enabled is_push_config_not_found
  delete_task_push_notification_config task_id config_id = do
    guard_push
    reporting_config (on_storage c st q (st.delete_push_config task_id config_id))
