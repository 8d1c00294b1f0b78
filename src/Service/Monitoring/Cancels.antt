-- ===== src/Service/Monitoring/Cancels.antt =====
-- A cancelled task stops its agent, and an open one does not (atlasic.go: `CancelTask` and
-- `processJobMonitoring`).
use atlasic.Prelude.{
  subst, ℕ, String, Bool, true, false, ◌||◌, ◌≡◌, ◌≢◌, refl, some, List, [], ◌∷◌, ◌++◌, pos,
  Bool-cases, inl, inr, arith,
}
use atlasic.Prelude.Exec.{Result}
use atlasic.A2a.{Task, TaskState, is_terminal, can_cancel}
use atlasic.Storage.{Storage, Lawful}
use atlasic.Service.{Settings, JobQueue, State, is_canceled}
use atlasic.Service.Coherence.{IsCurrent}
use atlasic.Service.Messages.{cancel_task}
use atlasic.Service.Messages.Accepted.{cancel_task-IsCurrent}
use atlasic.Service.Polling.{Others}
use atlasic.Service.Monitoring.{
  Tick, heartbeat, check, tells_to_stop, is_lost, check_and_handle_task_cancellation,
  process_job_monitoring,
}

one_message : pos 1 ≢ pos 0
one_message = ground arith

module _ (c : Settings) (st : Storage) (q : JobQueue) (laws : Lawful st) where
  open laws use {Ready, snapshot, get_task_found}

  -- A storage that holds the task with the id, in a state of the given kind.
  pub record Has (closed : Bool) (id : String) (s : State c st q) : Type 0 where
    pub ready : Ready s.storage
    pub task : Task
    pub version : ℕ
    pub stored : snapshot s.storage id ≡ some (task, version)
    pub kind : is_terminal task.status.state ≡ closed

  tells_to_stop_lem :
      (state : TaskState) → (is_canceled state || is_terminal state) ≡ is_terminal state
  unfolding is_terminal
  tells_to_stop_lem state = ground arith

  pub check-Has :
      (closed : Bool) (id : String) (s : State c st q)
      → Has closed id s
      → check_and_handle_task_cancellation c st q id s ≡ (closed, s)
  unfolding check_and_handle_task_cancellation tells_to_stop
  check-Has closed id s has =
      rw
        (
          get_task_found id (pos 1) s.storage has.task has.version has.ready one_message has.stored,
          tells_to_stop_lem has.task.status.state,
          has.kind,
        )
        refl

  -- A coherent task with the id that can still be cancelled.
  pub record IsOpen (id : String) (s : State c st q) : Type 0 where
    pub task : Task
    pub same : task.id ≡ id
    pub current : IsCurrent st laws s.storage task
    pub can : can_cancel task.status.state ≡ true

  open_kind : (state : TaskState) → can_cancel state ≡ true → is_terminal state ≡ false
  unfolding can_cancel
  open_kind state can = ground arith

  open-Has : (id : String) (s : State c st q) → IsOpen id s → Has false id s
  open-Has id s o =
      subst (λ x. Has false x s) o.same
        (record {
          ready = o.current.ready;
          task = o.task;
          version = _;
          stored = o.current.stored;
          kind = open_kind o.task.status.state o.can;
        })

  abbrev pub Round : Type 0
  Round = Others c st q × Tick

  -- The rounds in which others leave the task open and no heartbeat is lost.
  pub data Quiet (has_extend : Bool) (id : String) : List Round → Type 0 where
    no_rounds : Quiet has_extend id []
    quiet_heartbeat :
        {others : Others c st q} {r : Result (Unit {0})} {rounds : List Round}
        → ((s : State c st q) → IsOpen id s → IsOpen id (others s))
        → is_lost has_extend r ≡ false
        → Quiet has_extend id rounds
        → Quiet has_extend id ((others, heartbeat r) ∷ rounds)
    quiet_check :
        {others : Others c st q} {rounds : List Round}
        → ((s : State c st q) → IsOpen id s → IsOpen id (others s))
        → Quiet has_extend id rounds
        → Quiet has_extend id ((others, check) ∷ rounds)

  -- The rounds in which others leave the task in a terminal state, with a check among them.
  pub data Checked (id : String) : List Round → Type 0 where
    checked_now :
        {others : Others c st q} {rounds : List Round}
        → ((s : State c st q) → Has true id s → Has true id (others s))
        → Checked id ((others, check) ∷ rounds)
    checked_later :
        {others : Others c st q} {tick : Tick} {rounds : List Round}
        → ((s : State c st q) → Has true id s → Has true id (others s))
        → Checked id rounds
        → Checked id ((others, tick) ∷ rounds)

  -- Quiet rounds leave the agent running and the task open, and what comes next goes on from there.
  pub record GoesOn (has_extend : Bool) (id : String) (before : List Round) (s : State c st q)
      : Type 0 where
    pub running : (process_job_monitoring c st q has_extend id before s).0 ≡ false
    pub later : State c st q
    pub is_open : IsOpen id later
    pub resumed :
        (after : List Round)
        → process_job_monitoring c st q has_extend id (before ++ after) s
          ≡ process_job_monitoring c st q has_extend id after later

  pub Quiet-GoesOn :
      (has_extend : Bool) (id : String) (before : List Round) (s : State c st q)
      → Quiet has_extend id before
      → IsOpen id s
      → GoesOn has_extend id before s
  unfolding process_job_monitoring
  Quiet-GoesOn has_extend id [] s no_rounds o = record {
    running = refl;
    later = s;
    is_open = o;
    resumed = λ after. refl;
  }
  Quiet-GoesOn has_extend id ((others, heartbeat r) ∷ rounds) s (quiet_heartbeat keeps heard quiet)
        o =
      let on = Quiet-GoesOn has_extend id rounds (others s) quiet (keeps s o) in
      record {
        running = rw heard on.running;
        later = on.later;
        is_open = on.is_open;
        resumed = λ after. rw heard (on.resumed after);
      }
  Quiet-GoesOn has_extend id ((others, check) ∷ rounds) s (quiet_check keeps quiet) o =
      let on = Quiet-GoesOn has_extend id rounds (others s) quiet (keeps s o) in
      let seen = check-Has false id (others s) (open-Has id (others s) (keeps s o)) in
      record {
        running = rw seen on.running;
        later = on.later;
        is_open = on.is_open;
        resumed = λ after. rw seen (on.resumed after);
      }

  check-stops :
      (has_extend : Bool) (id : String) (others : Others c st q) (rounds : List Round)
      (s : State c st q)
      → Has true id (others s)
      → (process_job_monitoring c st q has_extend id ((others, check) ∷ rounds) s).0 ≡ true
  unfolding process_job_monitoring
  check-stops has_extend id others rounds s has = rw (check-Has true id (others s) has) refl

  heartbeat-stops :
      (has_extend : Bool) (id : String) (others : Others c st q) (r : Result (Unit {0}))
      (rounds : List Round) (s : State c st q)
      → (process_job_monitoring c st q has_extend id rounds (others s)).0 ≡ true
      → (process_job_monitoring c st q has_extend id ((others, heartbeat r) ∷ rounds) s).0 ≡ true
  unfolding process_job_monitoring
  heartbeat-stops has_extend id others r rounds s later = elim (Bool-cases (is_lost has_extend r)) [
    | inl lost ↦ rw lost refl
    | inr heard ↦ rw heard later
  ]

  pub Checked-stops :
      (has_extend : Bool) (id : String) (rounds : List Round) (s : State c st q)
      → Checked id rounds
      → Has true id s
      → (process_job_monitoring c st q has_extend id rounds s).0 ≡ true
  Checked-stops has_extend id [] s x has = elim x [ ]
  Checked-stops has_extend id ((others, check) ∷ rounds) s (checked_now keeps) has =
      check-stops has_extend id others rounds s (keeps s has)
  Checked-stops has_extend id ((others, check) ∷ rounds) s (checked_later keeps later) has =
      check-stops has_extend id others rounds s (keeps s has)
  Checked-stops has_extend id ((others, heartbeat r) ∷ rounds) s (checked_later keeps later) has =
      heartbeat-stops has_extend id others r rounds s
        (Checked-stops has_extend id rounds (others s) later (keeps s has))

  canceled-Has :
      (id : String) (s : State c st q) → IsOpen id s → Has true id (cancel_task c st q id s).1
  unfolding is_terminal
  canceled-Has id s o =
      let (returned, current, others) =
        cancel_task-IsCurrent c st q laws o.task s o.current o.can in
      subst (λ x. Has true x (cancel_task c st q x s).1) o.same
        (record {
          ready = current.ready;
          task = _;
          version = _;
          stored = current.stored;
          kind = refl;
        })

  -- While others leave a job's task open, no check of the monitor stops the agent. Once a client
  -- cancels the task, the agent is stopped, if nobody changes its terminal state before a check of
  -- the monitor comes.
  pub process_job_monitoring-cancel_task :
      (has_extend : Bool) (id : String) (r : Result (Unit {0})) (before after : List Round)
      (s : State c st q)
      → IsOpen id s
      → Quiet has_extend id before
      → Checked id after
      → let cancels : Round = (λ at. (cancel_task c st q id at).1, heartbeat r) in
        ((process_job_monitoring c st q has_extend id before s).0 ≡ false)
        × ((process_job_monitoring c st q has_extend id (before ++ cancels ∷ after) s).0 ≡ true)
  process_job_monitoring-cancel_task has_extend id r before after s o quiet checked =
      let on = Quiet-GoesOn has_extend id before s quiet o in
      (
        on.running,
        rw (on.resumed _) (
            heartbeat-stops has_extend id (λ at. (cancel_task c st q id at).1) r after on.later
              (Checked-stops has_extend id after _ checked (canceled-Has id on.later on.is_open))),
      )
