-- ===== src/Service/Jobs/Endings.antt =====
-- How a job may end (`ProcessJob`, atlasic.go), as a predicate on its result, the calls of the job's
-- functions and the status of its task.
use atlasic.Prelude.{
  true, false, ◌≡◌, refl, ap, sym, ◌⊎◌, Option, none, some, List, [], ◌∷◌, string_eq, pair_eq,
  arith,
}
use atlasic.Prelude.Exec.{Result, err, agent_failed, context_done}
use atlasic.A2a.{
  TaskState, completed, failed, is_terminal, TaskStatus, Message, MessageOptions, Part, role_agent,
}
use atlasic.Service.{is_canceled}
use atlasic.Service.Jobs.{
  context_canceled, with_status, other_error, Outcome, returned, ended_with, Job, Call,
  completes_job, fails_job, set_terminal,
}
use atlasic.Service.Jobs.Agents.{Tracks}

-- The status has a message of the agent's with what the given one holds, if that has parts, and no
-- message if none is given.
abbrev pub SaysParts : List Part → MessageOptions → TaskStatus → Type 0
SaysParts [] opts status = Unit
SaysParts (p ∷ ps) opts status =
    (x : Message) × (status.message ≡ some x)
    × (x.role ≡ role_agent)
    × (x.parts ≡ p ∷ ps)
    × (x.reference_task_ids ≡ opts.reference_task_ids)
    × (x.extensions ≡ opts.extensions)
    × (x.metadata ≡ opts.metadata)

abbrev pub Says : Option Message → TaskStatus → Type 0
Says none status = status.message ≡ none
Says (some m) status =
    SaysParts m.parts
      (record {
        reference_task_ids = m.reference_task_ids;
        extensions = m.extensions;
        metadata = m.metadata;
      })
      status

-- The agent set a terminal status, and none since.
abbrev pub SetLast : Option TaskStatus → TaskStatus → Type 0
SetLast last status = (last ≡ some status) × (is_terminal status.state ≡ true)

abbrev pub NoneSet : Option TaskStatus → Type 0
NoneSet none = Unit
NoneSet (some status) = is_terminal status.state ≡ false

-- The status is the terminal one that the agent set last; or it set none, and the status is what the
-- job gives a task for this end.
abbrev pub EndsIn : TaskState → Option Message → Option TaskStatus → TaskStatus → Type 0
EndsIn state message last status =
    SetLast last status ⊎ (NoneSet last × (status.state ≡ state) × Says message status)

-- An agent that returned has its job completed and its task in the terminal state that it set last, or
-- else "completed" with its message; one that was cancelled has its job and its task left alone; one
-- that failed has its job failed, and its task in the status that the error names, unless the task
-- was cancelled, or, if it names none, in the terminal state that it set last, or else "failed".
abbrev pub EndsAs :
    Job → Outcome → Option TaskStatus → Result (Unit {0}) × List Call → TaskStatus → Type 0
EndsAs job (returned message) last (r, calls) status =
    (r ≡ job.complete_result) × (calls ≡ completes_job ∷ []) × EndsIn completed message last status
EndsAs job (ended_with context_canceled) last (r, calls) status =
    (r ≡ err context_done) × (calls ≡ []) × Tracks last status
EndsAs job (ended_with (with_status x)) last (r, calls) status =
    (r ≡ err agent_failed)
    × (calls ≡ fails_job ∷ [])
    × (((status.state ≡ x.state) × Says x.message status) ⊎ (is_canceled status.state ≡ true))
EndsAs job (ended_with other_error) last (r, calls) status =
    (r ≡ err agent_failed) × (calls ≡ fails_job ∷ []) × EndsIn failed none last status

pub tracked_terminal :
    (last : Option TaskStatus) (status : TaskStatus)
    → Tracks last status
    → set_terminal last ≡ true
    → SetLast last status
tracked_terminal none status h e = cc
tracked_terminal (some x) status h e = (ap some (sym h), rw h e)

pub tracked_none : (last : Option TaskStatus) → set_terminal last ≡ false → NoneSet last
tracked_none none e = tt
tracked_none (some y) e = e

pub tracked_open :
    (last : Option TaskStatus) (status : TaskStatus)
    → Tracks last status
    → set_terminal last ≡ false
    → is_canceled status.state ≡ false
unfolding is_terminal
tracked_open none status h e = rw h refl
tracked_open (some x) status h e = ground arith

pub still_open : (state : TaskState) → is_terminal state ≡ false → is_canceled state ≡ false
unfolding is_terminal
still_open state h = ground arith
