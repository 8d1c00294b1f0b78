-- ===== src/Tests/Monitors.antt =====
-- The theorem on the monitor of a running job at concrete inputs.
use atlasic.Prelude.{true, false, ◌≡◌, refl, sym, List, [], ◌∷◌, ◌++◌, pair_eq, string_eq, arith}
use atlasic.Prelude.Exec.{ok}
use atlasic.A2a.{TaskState, can_cancel, is_terminal}
use atlasic.Storage.FileSystem.{file_system}
use atlasic.Storage.FileSystem.Laws.{file_system_laws}
use atlasic.Service.Messages.{process_message, cancel_task}
use atlasic.Service.Messages.Accepted.{process_message-existing}
use atlasic.Service.Monitoring.{is_lost, heartbeat, check, process_job_monitoring}
use atlasic.Service.Monitoring.Cancels.{
  IsOpen, no_rounds, quiet_heartbeat, quiet_check, checked_now, checked_later, Round,
  process_job_monitoring-cancel_task,
}
use atlasic.Tests.Fixtures.{
  settings, queue, again, Server, started, started_task, started-IsCurrent,
}

abbrev MonitorRound : Type 0
MonitorRound = Round settings file_system queue file_system_laws

abbrev IsOpenTask : Server → Type 0
IsOpenTask s = IsOpen settings file_system queue file_system_laws "task" s

started-IsOpen : IsOpenTask started
unfolding can_cancel
started-IsOpen = record {
  task = started_task;
  same = refl;
  current = started-IsCurrent;
  can = refl;
}

abbrev says_again : Server → Server
says_again s = (process_message settings file_system queue again s).1

not_terminal : (state : TaskState) → can_cancel state ≡ true → is_terminal state ≡ false
unfolding can_cancel
not_terminal state can = ground arith

still_open : (s : Server) → IsOpenTask s → IsOpenTask (says_again s)
unfolding can_cancel
still_open s o = record {
  task = _;
  same = o.same;
  current =
      (process_message-existing settings file_system queue file_system_laws o.task again s o.current
        (not_terminal o.task.status.state o.can) refl refl refl (sym o.same)).1;
  can = o.can;
}

-- The user says more, which the monitor takes no notice of, and later cancels the task.
abbrev before : List MonitorRound
before = (says_again, check) ∷ (says_again, heartbeat (ok tt)) ∷ []

abbrev after : List MonitorRound
after = ((λ s. s), heartbeat (ok tt)) ∷ ((λ s. s), check) ∷ []

process_job_monitoring-cancel_task_example :
    let cancels : MonitorRound =
      ((λ s. (cancel_task settings file_system queue "task" s).1), heartbeat (ok tt)) in
    ((process_job_monitoring settings file_system queue true "task" before started).0 ≡ false)
    × ((process_job_monitoring settings file_system queue true "task"
          (before ++ cancels ∷ after)
          started).0
        ≡ true)
unfolding is_lost
process_job_monitoring-cancel_task_example =
    process_job_monitoring-cancel_task settings file_system queue file_system_laws true "task"
      (ok tt) before after started started-IsOpen
      (quiet_check still_open (quiet_heartbeat still_open refl no_rounds))
      (checked_later (λ s h. h) (checked_now (λ s h. h)))
