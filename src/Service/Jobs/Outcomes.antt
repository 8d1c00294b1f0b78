-- ===== src/Service/Jobs/Outcomes.antt =====
-- How a job ends (`ProcessJob`, atlasic.go): its result, the job functions that are called, and the
-- task that the storage then holds.
use atlasic.Prelude.{
  ℕ, some, [], ◌∷◌, true, false, ◌≡◌, ◌≢◌, refl, sym, ◌∙◌, Option, none, List, string_eq, pair_eq,
  u64, length, Bool-cases, inl, inr, arith, pos,
}
use atlasic.Prelude.Exec.{Result, ok}
use atlasic.A2a.{
  TaskState, working, completed, failed, is_terminal, Part, MessageOptions, no_options, Task,
  TaskStatus, Message, new_message,
}
use atlasic.Storage.{Storage, Lawful, limit_task, limit_history}
use atlasic.Service.{Settings, JobQueue, State, is_canceled, update_status}
use atlasic.Service.Updates.{key_of}
use atlasic.Service.Coherence.{IsCurrent, OthersKept}
use atlasic.Service.Writes.{status_of, update_status-canceled, update_status-IsCurrent}
use atlasic.Service.Jobs.{
  Agent, context_canceled, with_status, other_error, Outcome, returned, ended_with, Job, Call,
  TaskHandleParams, execute, finish, find_message, process_locked, process_job, set_terminal,
  parts_of, parts_or_nil, options_or_none,
}
use atlasic.Service.Jobs.Agents.{Holds, OthersKept-trans, execute-Holds}
use atlasic.Service.Jobs.Endings.{
  EndsAs, Says, SaysParts, tracked_terminal, tracked_open, tracked_none, still_open,
}

ten_messages : pos 10 ≢ pos 0
ten_messages = ground arith

module _ (c : Settings) (st : Storage) (q : JobQueue) (laws : Lawful st) where
  parts-Says :
      (parts : List Part) (opts : MessageOptions) (n : ℕ) (state : TaskState)
      → SaysParts parts opts (status_of c st q laws n state (parts_or_nil parts) opts)
  unfolding new_message
  parts-Says [] opts n state = tt
  parts-Says (p ∷ ps) opts n state = (_, refl, refl, refl, refl, refl, refl)

  status-Says :
      (message : Option Message) (n : ℕ) (state : TaskState)
      → Says message (status_of c st q laws n state (parts_of message) (options_or_none message))
  status-Says none n state = refl
  status-Says (some m) n state = parts-Says m.parts _ n state

  -- The task is coherent with its events, nothing else was written, and the job ended as it should.
  pub record Concluded (t : Task) (a : st.State) (job : Job) (outcome : Outcome)
      (last : Option TaskStatus) (end : (Result (Unit {0}) × List Call) × State c st q)
      : Type 0 where
    pub task : Task
    pub id : task.id ≡ t.id
    pub context_id : task.context_id ≡ t.context_id
    pub current : IsCurrent st laws end.1.storage task
    pub others : OthersKept st laws t a end.1.storage
    pub ended : EndsAs job outcome last end.0 task.status

  module _ (t : Task) (a : st.State) (job : Job) (last : Option TaskStatus) (s : State c st q)
      (h : Holds st laws t a s.storage last) (same : job.config.task_id ≡ h.task.id) where
    -- Nothing more is written.
    left_alone :
        (outcome : Outcome) (end : Result (Unit {0}) × List Call)
        → EndsAs job outcome last end h.task.status
        → Concluded t a job outcome last (end, s)
    left_alone outcome end ended = record {
      task = h.task;
      id = h.id;
      context_id = h.context_id;
      current = h.current;
      others = h.others;
      ended = ended;
    }

    module _ (state : TaskState) (parts : Option (List Part)) (opts : MessageOptions)
        (open_ : is_canceled h.task.status.state ≡ false) where
      abbrev updated : Task
      updated = record h.task { status = status_of c st q laws s.generated state parts opts }

      update_returns :
          (update_status c st q job.config.task_id state parts opts s).0 ≡ ok updated.status
      update_returns =
          rw same (update_status-IsCurrent c st q laws h.task s h.current state parts opts open_).0

      after_update :
          (outcome : Outcome) (end : Result (Unit {0}) × List Call)
          → EndsAs job outcome last end updated.status
          → Concluded t a job outcome last
              (end, (update_status c st q job.config.task_id state parts opts s).1)
      after_update outcome end ended =
          let (r, current, others) =
            update_status-IsCurrent c st q laws h.task s h.current state parts opts open_ in
          record {
            task = updated;
            id = h.id;
            context_id = h.context_id;
            current = rw same current;
            others =
                rw same (
                  OthersKept-trans st laws t h.task a s.storage _ h.id h.context_id h.others
                    others);
            ended = ended;
          }

    after_refusal :
        (state : TaskState) (parts : Option (List Part)) (opts : MessageOptions)
        → is_canceled h.task.status.state ≡ true
        → (outcome : Outcome) (end : Result (Unit {0}) × List Call)
        → EndsAs job outcome last end h.task.status
        → Concluded t a job outcome last
            (end, (update_status c st q job.config.task_id state parts opts s).1)
    after_refusal state parts opts done outcome end ended =
        let refused = update_status-canceled c st q laws h.task s h.current state parts opts done in
        record {
          task = h.task;
          id = h.id;
          context_id = h.context_id;
          current = rw (same, refused) h.current;
          others = rw (same, refused) h.others;
          ended = ended;
        }

    pub finish-Concluded :
        (outcome : Outcome) → Concluded t a job outcome last (finish c st q job outcome last s)
    unfolding finish
    finish-Concluded (returned message) = elim (Bool-cases (set_terminal last)) [
      | inl over ↦
          rw over
            (left_alone _ _ (refl, refl, inl (tracked_terminal last h.task.status h.tracked over)))
      | inr more ↦
          rw
            (
              more,
              update_returns completed (parts_of message) (options_or_none message)
                  (tracked_open last h.task.status h.tracked more),
            )
            (after_update completed (parts_of message) (options_or_none message)
              (tracked_open last h.task.status h.tracked more) _ _
              (
                refl,
                refl,
                inr (tracked_none last more, refl, status-Says message s.generated completed),
              ))
    ]
    finish-Concluded (ended_with context_canceled) = left_alone _ _ (refl, refl, h.tracked)
    finish-Concluded (ended_with (with_status x)) =
        elim (Bool-cases (is_canceled h.task.status.state)) [
          | inl done ↦
              after_refusal x.state (parts_of x.message) (options_or_none x.message) done _ _
                (refl, refl, inr done)
          | inr open_ ↦
              after_update x.state (parts_of x.message) (options_or_none x.message) open_ _ _
                (refl, refl, inl (refl, status-Says x.message s.generated x.state))
        ]
    finish-Concluded (ended_with other_error) = elim (Bool-cases (set_terminal last)) [
      | inl over ↦
          rw over
            (left_alone _ _ (refl, refl, inl (tracked_terminal last h.task.status h.tracked over)))
      | inr more ↦ rw more (
          after_update failed none no_options (tracked_open last h.task.status h.tracked more) _ _
            (refl, refl, inr (tracked_none last more, refl, refl)))
    ]

  -- The run of the agent in a job for the task `t`, after the task has been set to "working". The
  -- incoming message is looked for among the last ten.
  abbrev pub agent_run :
      (TaskHandleParams → Agent)
      → Job
      → Task
      → State c st q
      → Outcome × Option TaskStatus × State c st q
  agent_run agent job t s =
      execute c st q job.config.task_id
        (agent (record {
          context_id = job.config.context_id;
          task_id = job.config.task_id;
          initial_status = t.status;
          accepted_output_modes = job.config.accepted_output_modes;
          incoming_message =
              find_message job.config.incoming_message_id (limit_history (pos 10) t.history);
        }))
        none (update_status c st q job.config.task_id working none no_options s).1

  module _ (t : Task) (agent : TaskHandleParams → Agent) (job : Job) (s : State c st q)
      (cur : IsCurrent st laws s.storage t) (open_ : is_terminal t.status.state ≡ false)
      (same : job.config.task_id ≡ t.id) where
    found :
        st.get_task job.config.task_id (pos 10) s.storage
        ≡ (ok (limit_task (pos 10) t, u64 (length (laws.stream s.storage (key_of t)))), s.storage)
    found =
        rw same (laws.get_task_found t.id (pos 10) s.storage t _ cur.ready ten_messages cur.stored)

    working_set :
        let (r, s') = update_status c st q job.config.task_id working none no_options s in
        (r ≡ ok (status_of c st q laws s.generated working none no_options))
        × Holds st laws t s.storage s'.storage none
    working_set =
        let (r, current, others) =
          update_status-IsCurrent c st q laws t s cur working none no_options
            (still_open t.status.state open_) in
        rw same (
          r,
          record {
            task = record t { status = status_of c st q laws s.generated working none no_options };
            id = refl;
            context_id = refl;
            current = current;
            tracked = refl;
            others = others;
          },
        )

    process_locked_lem :
        process_locked c st q agent job s
        ≡ (let (outcome, last, s') = agent_run agent job t s in finish c st q job outcome last s')
    unfolding process_locked
    process_locked_lem = rw (found, open_, working_set.0) refl

    agent_run-Holds :
        let (outcome, last, s') = agent_run agent job t s in
        Holds st laws t s.storage s'.storage last
    agent_run-Holds =
        rw same (execute-Holds c st q laws t s.storage _ none _ (rw same at working_set.1))

  -- In a service without a task locker, for a task that is not in a terminal state and that nobody
  -- else writes to, whatever the agent does: the job ends, the task is coherent with its events, and
  -- no other task is touched. If the agent returned, the job is completed, and the task has the
  -- terminal status that the agent set last, or else "completed" with the agent's message. If it was
  -- cancelled, the job and the task are left alone. If it failed, the job is failed, and the task has
  -- the status that the error names, unless it was cancelled, or, if the error names none, the
  -- terminal status that the agent set last, or else "failed" without a message.
  pub process_job-Concluded :
      (t : Task) (agent : TaskHandleParams → Agent) (job : Job) (s : State c st q)
      → IsCurrent st laws s.storage t
      → is_terminal t.status.state ≡ false
      → job.config.task_id ≡ t.id
      → let (outcome, last, s') = agent_run agent job t s in
        Concluded t s.storage job outcome last (process_job c st q none agent job s)
  unfolding process_job
  process_job-Concluded t agent job s cur open_ same =
      let holds = agent_run-Holds t agent job s cur open_ same in
      let (outcome, last, s') = agent_run agent job t s in
      rw (process_locked_lem t agent job s cur open_ same)
        (finish-Concluded t s.storage job last s' holds (same ∙ sym holds.id) outcome)
