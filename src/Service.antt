-- ===== src/Service.antt =====
-- `AgentService` (atlasic.go, task_updater.go): its state, and the operations that write to the
-- storage. The storage and the job queue are interfaces, taken as parameters.
--
-- Other goroutines are not in these definitions: each function is one call that runs alone, and
-- what others do between two polls is an argument of the polling loops (Service/Polling).
pub mod Updates
pub mod Coherence
pub mod Handle
pub mod Metadata
pub mod Monitoring
pub mod Writes
pub mod Torn
pub mod Messages
pub mod Polling
pub mod Jobs
use atlasic.Prelude.{
  ℕ, suc, ◌+◌, String, Bool, true, false, not, ◌&&◌, Option, none, some, List, [], ◌∷◌, ◌++◌, map,
  ℤ, if◌then◌else◌,
}
use atlasic.Prelude.Exec.{
  Exec, Result, ok, err, Error, pure, raise, wrapping, ◌>>=◌, ◌>>◌, cancelled_task,
}
use atlasic.A2a.{
  Role, role_agent, TaskState, canceled, Part, Message, MessageOptions, new_message, Task,
  TaskStatus, Artifact, StreamResponse, PushNotificationConfig, TaskPushNotificationConfig,
}
use atlasic.Storage.{Storage, history_length_all}
use atlasic.Updater
use atlasic.Updater.{TaskUpdater, new_task_updater, creation_updater}

-- `JobConfig`, less the HTTP headers.
pub record JobConfig : Type 0 where
  pub task_id : String
  pub context_id : String
  pub incoming_message_id : String
  pub accepted_output_modes : List String

-- The `JobQueue` interface, as its producers see it.
pub record JobQueue : Type 1 where
  pub Jobs : Type 0
  pub enqueue : JobConfig → Exec Jobs (Unit {0})

-- The public fields that the operations read, and the generators that they call: ids by a counter
-- of the calls made so far, and the time as it is formatted.
pub record Settings : Type 0 where
  pub disable_streaming : Bool
  pub disable_push_notifications : Bool
  pub has_push_notifier : Bool
  pub message_id : ℕ → String
  pub task_id : ℕ → String
  pub context_id : ℕ → String
  pub push_config_id : ℕ → String
  pub now : ℕ → String
  pub validate_endpoint : PushNotificationConfig → Result (Unit {0})

-- What a service changes: the storage, the job queue, the count of generated values, and the
-- deliveries that the push notifier was asked for.
pub record Service (S J : Type 0) : Type 0 where
  pub storage : S
  pub jobs : J
  pub generated : ℕ
  pub notified : List (PushNotificationConfig × StreamResponse)

unfoldable pub push_notifications_enabled : Settings → Bool
push_notifications_enabled c = not c.disable_push_notifications && c.has_push_notifier

abbrev pub is_canceled : TaskState → Bool
is_canceled canceled = true
is_canceled _ = false

-- One delivery to each endpoint for each event, the events in their order.
unfoldable pub deliveries :
    List StreamResponse
    → List TaskPushNotificationConfig
    → List (PushNotificationConfig × StreamResponse)
deliveries [] configs = []
deliveries (e ∷ es) configs = map (λ c. (c.config, e)) configs ++ deliveries es configs

module _ (c : Settings) (st : Storage) (q : JobQueue) where
  abbrev pub State : Type 0
  State = Service st.State q.Jobs

  abbrev pub on_storage {ℓ} : {A : Type ℓ} → Exec st.State A → Exec State A
  on_storage m s = let (r, s') = m s.storage in (r, record s { storage = s' })

  -- `getIDGenerator().Generate...()` and `flextime.Now()`
  abbrev pub generate : (ℕ → String) → Exec State String
  generate f s = (ok (f s.generated), record s { generated = suc s.generated })

  -- The deliveries to what `ListTaskPushNotificationConfig` returned. A failed listing is logged,
  -- and so is a failed delivery, which does not stop the others.
  abbrev pub notify_listed :
      List StreamResponse → Result (List TaskPushNotificationConfig) → State → State
  notify_listed events (ok configs) s = record s {
    notified = s.notified ++ deliveries events configs;
  }
  notify_listed events (err e) s = s

  unfoldable pub send_push_notifications : String → List StreamResponse → State → State
  unfolding push_notifications_enabled deliveries
  send_push_notifications task_id events s =
      if push_notifications_enabled c
      then (let (r, s') = on_storage (st.list_push_configs task_id) s in notify_listed events r s')
      else s

  -- The writes of `applyTaskUpdates`, where there are events.
  unfoldable pub write_updates : TaskUpdater → Exec State TaskUpdater
  unfolding send_push_notifications
  write_updates tu = do
    version ←
        wrapping (
          on_storage (st.append tu.task.context_id tu.task.id tu.initial_version tu.pending_events))
    wrapping (on_storage (st.save_task tu.task tu.initial_version version))
    λ s. (
      ok (record tu { version = version }),
      send_push_notifications tu.task.id tu.pending_events s,
    )

  abbrev pub when_pending : List StreamResponse → TaskUpdater → Exec State TaskUpdater
  when_pending [] tu = pure tu
  when_pending (e ∷ es) tu = write_updates tu

  unfoldable pub apply_task_updates : TaskUpdater → Exec State TaskUpdater
  unfolding write_updates
  apply_task_updates tu = when_pending tu.pending_events tu

  unfoldable pub create_new_task : String → String → Message → Exec State Task
  create_new_task task_id context_id user_message = do
    tu ← wrapping (apply_task_updates (creation_updater task_id context_id user_message))
    pure tu.task

  unfoldable pub add_message :
      String → String → Role → List Part → MessageOptions → Exec State String
  unfolding apply_task_updates new_task_updater Updater.add_message
  add_message task_id message_id role parts opts = do
    (task, version) ← wrapping (on_storage (st.get_task task_id history_length_all))
    apply_task_updates (
        Updater.add_message (new_message message_id role parts opts)
          (new_task_updater task version))
    pure message_id

  -- The message of a new status, which there is if parts are given.
  unfoldable pub status_message : Option (List Part) → MessageOptions → Exec State (Option Message)
  status_message none opts = pure none
  status_message (some parts) opts = do
    message_id ← generate c.message_id
    pure (some (new_message message_id role_agent parts opts))

  abbrev pub guard_canceled : TaskState → Exec State (Unit {0})
  guard_canceled state = if is_canceled state then raise cancelled_task else pure tt

  unfoldable pub update_status :
      String → TaskState → Option (List Part) → MessageOptions → Exec State TaskStatus
  unfolding status_message apply_task_updates new_task_updater Updater.update_status
  update_status task_id state parts opts = do
    message ← status_message parts opts
    timestamp ← generate c.now
    let status : TaskStatus = record {
      state = state;
      message = message;
      timestamp = some timestamp;
    }
    (task, version) ← wrapping (on_storage (st.get_task task_id history_length_all))
    guard_canceled task.status.state
    apply_task_updates (Updater.update_status status (new_task_updater task version))
    pure status

  unfoldable pub upsert_artifact : String → Artifact → Exec State (Unit {0})
  unfolding apply_task_updates new_task_updater Updater.upsert_artifact
  upsert_artifact task_id artifact = do
    (task, version) ← wrapping (on_storage (st.get_task task_id history_length_all))
    apply_task_updates (Updater.upsert_artifact artifact (new_task_updater task version))
    pure tt
