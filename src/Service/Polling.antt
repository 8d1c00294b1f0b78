-- ===== src/Service/Polling.antt =====
-- The loops that poll a task's events (atlasic.go): `waitForTaskCompletion`, `streamTaskEvents`,
-- and `SendMessage` and `SendStreamingMessage`, which use them.
--
-- Each round of a loop is a tick of its timer; what all other goroutines did since the last one is
-- a function on the state. After the given rounds the request's context ends: before the next tick,
-- with what others did up to then (`ending`), or, for a stream, while the events of one more poll are
-- sent, after the first `cut` of them.
pub mod Delivery
pub mod Bursts
pub mod Sending
use atlasic.Prelude.{
  ℕ, zero, suc, String, Bool, true, false, not, ◌&&◌, Option, none, some, List, [], ◌∷◌, ◌++◌, map,
  ltb, take, ℤ, pos, negsuc, length, last_n, if◌then◌else◌,
}
use atlasic.Prelude.Exec.{
  Exec, Result, ok, err, pure, raise, wrapping, ◌>>=◌, ◌>>◌, rpc, context_done,
}
use atlasic.A2a.{
  Message, Task, StreamResponse, task_event, message_event, status_event, artifact_event,
  error_code_unsupported_operation, error_code_blocking_not_allowed,
}
use atlasic.Storage.{Storage, history_length_all}
use atlasic.Service.{Settings, JobQueue, JobConfig, State, on_storage}
use atlasic.Service.Messages.{
  MessageSendConfiguration, MessageSendParams, process_message, length_or_all, reread,
  get_or_report,
}

-- `event.Status != nil && event.Status.Final`
abbrev pub is_final : StreamResponse → Bool
is_final (status_event e) = e.final
is_final _ = false

abbrev pub any_final : List StreamResponse → Bool
any_final [] = false
any_final (e ∷ es) = if is_final e then true else any_final es

-- `if nextVersion > lastVersion { lastVersion = nextVersion }`
abbrev pub later_version : ℕ → ℕ → ℕ
later_version last next = if ltb last next then next else last

abbrev pub next_start : ℕ → Result (List StreamResponse × ℕ) → ℕ
next_start last (ok (events, next)) = later_version last next
next_start last (err e) = last

abbrev pub finds_final : Result (List StreamResponse × ℕ) → Bool
finds_final (ok (events, next)) = any_final events
finds_final (err e) = false

-- The check of the last event, where there are events.
abbrev pub ends_final : List StreamResponse → Bool
ends_final [] = false
ends_final (e ∷ []) = is_final e
ends_final (e ∷ f ∷ es) = ends_final (f ∷ es)

abbrev pub loaded : Result (List StreamResponse × ℕ) → List StreamResponse
loaded (ok (events, next)) = events
loaded (err e) = []

-- The history of a task event is cut to the length that the client asked for.
abbrev pub cut_history : ℤ → List Message → List Message
cut_history (pos zero) ms = []
cut_history (pos (suc n)) ms = if ltb (suc n) (length ms) then last_n (suc n) ms else ms
cut_history (negsuc n) ms = ms

unfoldable pub filter_event : Option ℤ → StreamResponse → StreamResponse
filter_event (some h) (task_event t) = task_event (record t { history = cut_history h t.history })
filter_event _ e = e

abbrev pub history_length_of : Option MessageSendConfiguration → Option ℤ
history_length_of none = none
history_length_of (some config) = config.history_length

abbrev pub output_modes_of : Option MessageSendConfiguration → List String
output_modes_of none = []
output_modes_of (some config) = config.accepted_output_modes

-- The job that is enqueued for a message: nothing sets `IncomingMessageID`.
unfoldable pub job_config_for : String → String → Option MessageSendConfiguration → JobConfig
job_config_for task_id context_id config = record {
  task_id = task_id;
  context_id = context_id;
  incoming_message_id = "";
  accepted_output_modes = output_modes_of config;
}

abbrev pub is_blocking : Option MessageSendConfiguration → Bool
is_blocking none = true
is_blocking (some config) = config.blocking

abbrev pub asks_blocking : Option MessageSendConfiguration → Bool
asks_blocking none = false
asks_blocking (some config) = config.blocking

module _ (c : Settings) (st : Storage) (q : JobQueue) where
  abbrev pub Others : Type 0
  Others = State c st q → State c st q

  -- One poll: the events from a version on, a hundred at most.
  abbrev pub poll : String → String → ℕ → Exec (State c st q) (List StreamResponse × ℕ)
  poll context_id task_id last = on_storage c st q (st.load context_id task_id last (pos 100))

  unfoldable pub wait_for_task_completion :
      String → String → List Others → Others → ℕ → Exec (State c st q) (Unit {0})
  wait_for_task_completion context_id task_id [] ending last s = (err context_done, ending s)
  wait_for_task_completion context_id task_id (others ∷ ticks) ending last s =
      let (r, s') = poll context_id task_id last (others s) in
      let rest = wait_for_task_completion context_id task_id ticks ending (next_start last r) s' in
      if finds_final r then (ok tt, s') else rest

  -- The last poll of a stream, if the context ends while its events are sent.
  abbrev pub stream_cut :
      Option ℤ → String → String → Option ℕ → ℕ → State c st q → List StreamResponse × State c st q
  stream_cut h context_id task_id none last s = ([], s)
  stream_cut h context_id task_id (some n) last s =
      let (r, s') = poll context_id task_id last s in (map (filter_event h) (take n (loaded r)), s')

  -- The events that are sent to the client, and the state in which the stream is closed.
  unfoldable pub stream_events :
      Option ℤ
      → String
      → String
      → List Others
      → Others
      → Option ℕ
      → ℕ
      → State c st q
      → List StreamResponse × State c st q
  unfolding filter_event
  stream_events h context_id task_id [] ending cut last s =
      stream_cut h context_id task_id cut last (ending s)
  stream_events h context_id task_id (others ∷ ticks) ending cut last s =
      let (r, s') = poll context_id task_id last (others s) in
      let sent = map (filter_event h) (loaded r) in
      let rest = stream_events h context_id task_id ticks ending cut (next_start last r) s' in
      if ends_final (loaded r) then (sent, s') else (sent ++ rest.0, rest.1)

  abbrev pub on_jobs {ℓ} : {A : Type ℓ} → Exec q.Jobs A → Exec (State c st q) A
  on_jobs m s = let (r, j) = m s.jobs in (r, record s { jobs = j })

  abbrev pub when_blocking :
      Bool → String → String → List Others → Others → Exec (State c st q) (Unit {0})
  when_blocking false context_id task_id ticks ending = pure tt
  when_blocking true context_id task_id ticks ending =
      wrapping (wait_for_task_completion context_id task_id ticks ending 0)

  -- Enqueue and wait, if the agent is to be run.
  abbrev pub when_executed :
      Bool
      → String
      → String
      → Option MessageSendConfiguration
      → List Others
      → Others
      → Exec (State c st q) (Unit {0})
  when_executed false task_id context_id config ticks ending = pure tt
  when_executed true task_id context_id config ticks ending = do
    wrapping (on_jobs (q.enqueue (job_config_for task_id context_id config)))
    when_blocking (is_blocking config) context_id task_id ticks ending

  unfoldable pub send_message : MessageSendParams → List Others → Others → Exec (State c st q) Task
  unfolding job_config_for
  send_message params ticks ending = do
    (task_id, context_id, should_execute) ← process_message c st q params.message
    when_executed should_execute task_id context_id params.configuration ticks ending
    (task, version) ← wrapping (
        on_storage c st q
          (st.get_task task_id (length_or_all c st q (history_length_of params.configuration))))
    pure task

  -- A failure to enqueue is logged, and the streaming goes on.
  abbrev pub enqueue_logged :
      Bool → String → String → Option MessageSendConfiguration → State c st q → State c st q
  enqueue_logged false task_id context_id config s = s
  enqueue_logged true task_id context_id config s =
      (on_jobs (q.enqueue (job_config_for task_id context_id config)) s).1

  unfoldable pub stream_task_events :
      Bool
      → String
      → String
      → Option MessageSendConfiguration
      → List Others
      → Others
      → Option ℕ
      → Exec (State c st q) (List StreamResponse)
  unfolding job_config_for stream_events
  stream_task_events should_execute context_id task_id config ticks ending cut s =
      let (sent, s') =
        stream_events (history_length_of config) context_id task_id ticks ending cut 0
          (enqueue_logged should_execute task_id context_id config s) in
      (ok sent, s')

  abbrev pub guard_streaming : Exec (State c st q) (Unit {0})
  guard_streaming =
      if c.disable_streaming then raise (rpc error_code_unsupported_operation) else pure tt

  abbrev pub guard_not_blocking : Option MessageSendConfiguration → Exec (State c st q) (Unit {0})
  guard_not_blocking config =
      if asks_blocking config then raise (rpc error_code_blocking_not_allowed) else pure tt

  unfoldable pub send_streaming_message :
      MessageSendParams
      → List Others
      → Others
      → Option ℕ
      → Exec (State c st q) (List StreamResponse)
  unfolding stream_task_events
  send_streaming_message params ticks ending cut = do
    guard_streaming
    guard_not_blocking params.configuration
    (task_id, context_id, should_execute) ← process_message c st q params.message
    stream_task_events should_execute context_id task_id params.configuration ticks ending cut

  unfoldable pub task_resubscription :
      String → List Others → Others → Option ℕ → Exec (State c st q) (List StreamResponse)
  unfolding stream_task_events get_or_report
  task_resubscription id ticks ending cut = do
    guard_streaming
    task ← get_or_report c st q id (pos 1)
    stream_task_events false task.context_id id none ticks ending cut
