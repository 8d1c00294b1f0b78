-- ===== src/Service/Jobs.antt =====
-- `ProcessJob` (atlasic.go): the run of an agent for one job, with the status updates around it.
--
-- An agent is any strategy of calls on its task handle (task_handle.go) that at last returns a
-- message or an error; what each call gave decides how it goes on. Of the calls that only read it has
-- `GetTask` (the others are in Service/Handle), and it has no virtual file systems. Nobody else
-- writes to the task meanwhile.
pub mod Agents
pub mod Endings
pub mod Outcomes
pub mod Incoming
use atlasic.Prelude.{
  ℕ, suc, String, Bool, true, false, Option, none, some, List, [], ◌∷◌, ◌++◌, ◌==◌, string_eq, ℤ,
  pos, negsuc, if◌then◌else◌,
}
use atlasic.Prelude.Exec.{
  Exec, Result, ok, err, Error, pure, wrapping, ◌>>=◌, wrap, wrap_result, agent_failed,
  context_done,
}
use atlasic.A2a.{
  kind_message, other_kind, other_role, role_agent, TaskState, working, completed, failed,
  is_terminal, Part, Message, MessageOptions, no_options, Task, TaskStatus, Artifact,
}
use atlasic.Storage.{Storage}
use atlasic.Service.{
  Settings, JobQueue, JobConfig, State, on_storage, generate, add_message, update_status,
  upsert_artifact,
}
use atlasic.Service.Messages.{options_of}

-- `context.Canceled`, a `TaskStatusError`, or any other error.
pub data AgentError : Type 0 where
  context_canceled : AgentError
  with_status : TaskStatus → AgentError
  other_error : AgentError

pub data Agent : Type 0 where
  returns : Option Message → Agent
  fails : AgentError → Agent
  updates_status :
      TaskState → Option (List Part) → MessageOptions → (Result TaskStatus → Agent) → Agent
  adds_message : List Part → MessageOptions → (Result String → Agent) → Agent
  upserts_artifact : Artifact → (Result (Unit {0}) → Agent) → Agent
  reads_task : ℤ → (Result (Task × ℕ) → Agent) → Agent

pub data Outcome : Type 0 where
  returned : Option Message → Outcome
  ended_with : AgentError → Outcome

pub record TaskHandleParams : Type 0 where
  pub context_id : String
  pub task_id : String
  pub initial_status : TaskStatus
  pub accepted_output_modes : List String
  pub incoming_message : Message

-- The calls of a job's functions and of the unlock function, in their order.
pub data Call : Type 0 where
  completes_job fails_job unlocks : Call

pub record Job : Type 0 where
  pub config : JobConfig
  pub complete_result : Result (Unit {0})

-- The zero value of a message.
abbrev pub no_message : Message
no_message = record {
  kind = other_kind "";
  message_id = "";
  context_id = "";
  task_id = "";
  role = other_role "";
  parts = [];
  reference_task_ids = [];
  extensions = [];
  metadata = [];
}

-- The loop over the history: the first message with the id, or the zero value.
unfoldable pub find_message : String → List Message → Message
find_message id [] = no_message
find_message id (m ∷ ms) = if m.message_id == id then m else find_message id ms

-- `statusTracker.UpdateStatus` keeps the last status that was set.
abbrev pub track : Result TaskStatus → Option TaskStatus → Option TaskStatus
track (ok status) last = some status
track (err e) last = last

-- `hasStatusUpdate` and a terminal `getLastStatusUpdate`
abbrev pub set_terminal : Option TaskStatus → Bool
set_terminal none = false
set_terminal (some status) = is_terminal status.state

-- The parts and the options of a message that may be nil; no parts are a nil slice.
abbrev pub parts_or_nil : List Part → Option (List Part)
parts_or_nil [] = none
parts_or_nil (p ∷ ps) = some (p ∷ ps)

abbrev pub parts_of : Option Message → Option (List Part)
parts_of none = none
parts_of (some m) = parts_or_nil m.parts

abbrev pub options_or_none : Option Message → MessageOptions
options_or_none none = no_options
options_or_none (some m) = options_of m

abbrev pub failed_status : TaskStatus
failed_status = record { state = failed; message = none; timestamp = none }

-- The status to set after an error, if any: the error's own, or else "failed" unless the agent had
-- set a terminal one.
abbrev pub status_after : AgentError → Option TaskStatus → Option TaskStatus
status_after (with_status status) last = some status
status_after _ last = if set_terminal last then none else some failed_status

-- The retries of `acquireTaskLockWithRetry`: the outcome of each attempt on the lock until the
-- context ends.
unfoldable pub acquire_task_lock_with_retry : List (Result (Unit {0})) → Result (Unit {0})
acquire_task_lock_with_retry [] = err context_done
acquire_task_lock_with_retry (ok u ∷ attempts) = ok u
acquire_task_lock_with_retry (err e ∷ attempts) = acquire_task_lock_with_retry attempts

module _ (c : Settings) (st : Storage) (q : JobQueue) where
  unfoldable pub handle_add_message :
      String → List Part → MessageOptions → Exec (State c st q) String
  handle_add_message task_id parts opts = do
    message_id ← generate c st q c.message_id
    add_message c st q task_id message_id role_agent parts opts

  -- `Agent.Execute` on a handle whose status updates are tracked.
  unfoldable pub execute :
      String → Agent → Option TaskStatus → State c st q → Outcome × Option TaskStatus × State c st q
  execute id (returns message) last s = (returned message, last, s)
  execute id (fails e) last s = (ended_with e, last, s)
  execute id (updates_status state parts opts next) last s =
      let (r, s') = update_status c st q id state parts opts s in
      execute id (next r) (track r last) s'
  execute id (adds_message parts opts next) last s =
      let (r, s') = handle_add_message id parts opts s in execute id (next r) last s'
  execute id (upserts_artifact a next) last s =
      let (r, s') = wrapping (upsert_artifact c st q id a) s in execute id (next r) last s'
  execute id (reads_task h next) last s =
      let (r, s') = wrapping (on_storage c st q (st.get_task id h)) s in execute id (next r) last s'

  abbrev pub Ended : Type 0
  Ended = (Result (Unit {0}) × List Call) × State c st q

  abbrev pub set_status : String → Option TaskStatus → State c st q → State c st q
  set_status id none s = s
  set_status id (some x) s =
      (update_status c st q id x.state (parts_of x.message) (options_or_none x.message) s).1

  abbrev pub after_completed : Job → Result TaskStatus → Result (Unit {0}) × List Call
  after_completed job (ok status) = (job.complete_result, completes_job ∷ [])
  after_completed job (err e) = (err e, fails_job ∷ [])

  -- What follows `Agent.Execute`.
  unfoldable pub finish : Job → Outcome → Option TaskStatus → State c st q → Ended
  finish job (ended_with context_canceled) last s = ((err context_done, []), s)
  finish job (ended_with e) last s =
      ((err agent_failed, fails_job ∷ []), set_status job.config.task_id (status_after e last) s)
  finish job (returned message) last s =
      if set_terminal last
      then ((job.complete_result, completes_job ∷ []), s)
      else (let (r, s') =
            update_status c st q job.config.task_id completed (parts_of message)
              (options_or_none message) s in
          (after_completed job r, s'))

  abbrev pub run_agent :
      (TaskHandleParams → Agent) → Job → Task → Result TaskStatus → State c st q → Ended
  run_agent agent job t (err e) s = ((err e, fails_job ∷ []), s)
  run_agent agent job t (ok status) s =
      let params : TaskHandleParams = record {
        context_id = job.config.context_id;
        task_id = job.config.task_id;
        initial_status = t.status;
        accepted_output_modes = job.config.accepted_output_modes;
        incoming_message = find_message job.config.incoming_message_id t.history;
      } in
      let (outcome, last, s') = execute job.config.task_id (agent params) none s in
      finish job outcome last s'

  abbrev pub with_task : (TaskHandleParams → Agent) → Job → Result (Task × ℕ) → State c st q → Ended
  with_task agent job (err e) s = ((err e, fails_job ∷ []), s)
  with_task agent job (ok (t, version)) s =
      if is_terminal t.status.state
      then ((ok tt, []), s)
      else (let (r, s') = update_status c st q job.config.task_id working none no_options s in
          run_agent agent job t r s')

  unfoldable pub process_locked : (TaskHandleParams → Agent) → Job → State c st q → Ended
  unfolding finish find_message
  process_locked agent job s =
      let (r, s') = on_storage c st q (st.get_task job.config.task_id (pos 10)) s in
      with_task agent job r s'

  abbrev pub when_locked :
      Result (Unit {0}) → (TaskHandleParams → Agent) → Job → State c st q → Ended
  when_locked (err e) agent job s = ((err e, fails_job ∷ []), s)
  when_locked (ok u) agent job s =
      let ((r, calls), s') = process_locked agent job s in ((r, calls ++ unlocks ∷ []), s')

  -- The attempts on the lock are given if there is a locker.
  unfoldable pub process_job :
      Option (List (Result (Unit {0}))) → (TaskHandleParams → Agent) → Job → State c st q → Ended
  unfolding process_locked acquire_task_lock_with_retry
  process_job none agent job s = process_locked agent job s
  process_job (some attempts) agent job s =
      when_locked (acquire_task_lock_with_retry attempts) agent job s
