-- ===== src/Tests/Streams.antt =====
-- The theorems on the polling loops, torn writes, jobs and locks at concrete inputs.
use atlasic.Prelude.{
  ℕ, zero, suc, ◌⊎◌, ◌≡◌, refl, true, false, none, List, [], ◌∷◌, string_eq, pair_eq, arith,
}
use atlasic.Prelude.Table.{lookup, insert}
use atlasic.Prelude.Exec.{ok, err, context_done, lock_already_acquired}
use atlasic.A2a.{StreamResponse, working, completed}
use atlasic.Storage.FileSystem.{
  file_system, new_file_system_storage, Disk, append, write_file, os_call,
}
use atlasic.Storage.FileSystem.Ready.{IsReady}
use atlasic.Storage.FileSystem.Laws.{file_system_laws}
use atlasic.Storage.FileSystem.Versions.{append_lem}
use atlasic.Service.Polling.{Others, stream_events, wait_for_task_completion}
use atlasic.Service.Polling.Delivery.{
  events, after_rounds, Bursts, Delivered, stream_events-Delivered,
}
use atlasic.Service.Polling.Bursts.{
  HasFinal, wait_for_task_completion-Waited, wait_for_task_completion-burst, quiet,
}
use atlasic.Updater.{created_task}
use atlasic.Locker.{Locker, new_locker, lock}
use atlasic.Locker.Exclusion.{
  Reachable, created, acquires, is_refused, Guarded, gained, nobody, Reachable-Guarded,
}
use atlasic.Tests.Fixtures.{
  hello, settings, queue, server_on, new_server, two_events, event_of, log, log-IsReady,
  new_storage-IsReady,
}

-- Between two polls the agent writes two events.
abbrev agent_writes : Others settings file_system queue
agent_writes s = server_on log

log-Bursts :
    Bursts settings file_system queue file_system_laws "context" "task" []
      (agent_writes ∷ [])
      new_server
unfolding append write_file os_call insert lookup
log-Bursts = (two_events, log-IsReady, refl, omega arith, omega arith, tt)

stream_events-Delivered_example :
    Delivered settings file_system queue file_system_laws "context" "task" none
      (agent_writes ∷ [])
      agent_writes
      []
      new_server
      (stream_events settings file_system queue none "context" "task"
        (agent_writes ∷ [])
        agent_writes
        none
        0
        new_server)
stream_events-Delivered_example =
    stream_events-Delivered settings file_system queue file_system_laws "context" "task" none
      agent_writes [] agent_writes new_server log-Bursts

wait_for_task_completion-Waited_example :
    let end =
      wait_for_task_completion settings file_system queue "context" "task"
        (agent_writes ∷ [])
        agent_writes
        0
        new_server in
    let last =
      after_rounds settings file_system queue file_system_laws "context" "task"
        (agent_writes ∷ [])
        new_server in
    ((end.0 ≡ ok tt)
      × HasFinal (events settings file_system queue file_system_laws "context" "task" end.1))
    ⊎ ((end ≡ (err context_done, agent_writes last))
        × ¬ HasFinal (events settings file_system queue file_system_laws "context" "task" last))
wait_for_task_completion-Waited_example =
    wait_for_task_completion-Waited settings file_system queue file_system_laws "context" "task"
      agent_writes [] agent_writes new_server log-Bursts

-- A hundred updates to "working" and the final one after them.
abbrev updates : ℕ → List StreamResponse
updates zero = event_of completed true ∷ []
updates (suc n) = event_of working false ∷ updates n

abbrev long_log : Disk
long_log = (append "context" "task" 0 (updates 100) new_file_system_storage).1

long_log-IsReady : IsReady long_log
long_log-IsReady =
    (append_lem "context" "task" 0 (updates 100) new_file_system_storage new_storage-IsReady).0

abbrev agent_hurries : Others settings file_system queue
agent_hurries s = server_on long_log

wait_for_task_completion-burst_example :
    wait_for_task_completion settings file_system queue "context" "task"
      (agent_hurries ∷ quiet settings file_system queue file_system_laws "context" "task" 3)
      (λ s. s)
      0
      new_server
    ≡ (err context_done, server_on long_log)
unfolding append write_file os_call insert lookup
wait_for_task_completion-burst_example =
    wait_for_task_completion-burst settings file_system queue file_system_laws "context" "task"
      agent_hurries 3 (λ s. s) new_server [] (updates 100) long_log-IsReady refl (omega arith) refl

-- The log of two events with a snapshot that is still at version 0.
abbrev torn : Disk
torn = record log { tasks = ("task", (created_task "task" "context" hello, 0)) ∷ [] }

torn-IsReady : IsReady torn
torn-IsReady = record { no_faults = log-IsReady.no_faults; versions = log-IsReady.versions }

-- One caller has the lock of the task, and another has been refused it.
abbrev contended : Locker
contended = (lock false "task" (lock false "task" new_locker).1).1

contended-Reachable : Reachable contended (gained "task" nobody)
unfolding lock lookup insert
contended-Reachable =
    is_refused false "task" lock_already_acquired (acquires false "task" created refl) refl

Reachable-Guarded_example : Guarded contended (gained "task" nobody) "task"
Reachable-Guarded_example =
    Reachable-Guarded contended (gained "task" nobody) contended-Reachable "task"
