-- ===== src/Service/Polling/Sending.antt =====
-- `SendMessage` (atlasic.go) from the client's message to the job and the answer.
use atlasic.Prelude.{
  true, false, String, some, ◌≡◌, ◌≢◌, refl, Option, none, List, [], ◌==◌, string_eq, pair_eq, pos,
  u64, length,
}
use atlasic.Prelude.Exec.{ok}
use atlasic.A2a.{Message, Task}
use atlasic.Storage.{Storage, Lawful, limit_task}
use atlasic.Service.{Settings, JobQueue, JobConfig, State}
use atlasic.Service.Updates.{key_of}
use atlasic.Service.Messages.{
  MessageSendConfiguration, process_message, is_foreign_role, length_or_all,
}
use atlasic.Service.Messages.Accepted.{new_task, new_task_id, new_context_id, process_message-new}
use atlasic.Service.Polling.{
  Others, send_message, job_config_for, is_blocking, history_length_of, output_modes_of,
}

-- The output modes that the client accepts.
abbrev pub asked_modes : Option MessageSendConfiguration → List String
asked_modes none = []
asked_modes (some config) = config.accepted_output_modes

asked_modes_lem :
    (config : Option MessageSendConfiguration) → output_modes_of config ≡ asked_modes config
asked_modes_lem none = refl
asked_modes_lem (some config) = refl

module _ (c : Settings) (st : Storage) (q : JobQueue) (laws : Lawful st) where
  open laws use {Ready, snapshot, stream, get_task_found}

  -- A user's message that names no task and is not sent as blocking, to a queue that takes every
  -- job: a job for the new task, its context and the output modes that the client accepts, without an
  -- incoming message, is enqueued, and the answer is the new task, cut to the history
  -- length that the client asked for, which is not 0.
  pub send_message-new :
      (m : Message) (config : Option MessageSendConfiguration) (ticks : List (Others c st q))
      (ending : Others c st q) (s : State c st q)
      → Ready s.storage
      → is_foreign_role m.role ≡ false
      → (m.task_id == "") ≡ true
      → snapshot s.storage (new_task_id c st q laws m s) ≡ none
      → stream s.storage (new_context_id c st q laws m s, new_task_id c st q laws m s) ≡ []
      → ((x : JobConfig) (jobs : q.Jobs) → (q.enqueue x jobs).0 ≡ ok tt)
      → is_blocking config ≡ false
      → length_or_all c st q (history_length_of config) ≢ pos 0
      → let after = (process_message c st q m s).1 in
        let job : JobConfig = record {
          task_id = new_task_id c st q laws m s;
          context_id = new_context_id c st q laws m s;
          incoming_message_id = "";
          accepted_output_modes = asked_modes config;
        } in
        let (r, end) =
          send_message c st q (record { message = m; configuration = config }) ticks ending s in
        (r
          ≡ ok (
              limit_task
                (length_or_all c st q (history_length_of config))
                (new_task c st q laws m s)))
        × (end.jobs ≡ (q.enqueue job after.jobs).1)
        × (end.storage ≡ after.storage)
  unfolding send_message job_config_for
  send_message-new m config ticks ending s ready own no_task unknown_task no_events takes open_
        some_history =
      let (returned, current, others, announced) =
        process_message-new c st q laws m s ready own no_task unknown_task no_events in
      let t : Task = new_task c st q laws m s in
      let after : State c st q = (process_message c st q m s).1 in
      rw
        (
          returned,
          asked_modes_lem config,
          takes
              (record {
                task_id = t.id;
                context_id = t.context_id;
                incoming_message_id = "";
                accepted_output_modes = asked_modes config;
              })
              after.jobs,
          open_,
          get_task_found t.id (length_or_all c st q (history_length_of config)) after.storage t
              (u64 (length (stream after.storage (key_of t)))) current.ready some_history
              current.stored,
        )
        (refl, refl, refl)
