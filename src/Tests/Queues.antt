-- ===== src/Tests/Queues.antt =====
-- The theorems on the job queue, the push configs and failing writes at concrete inputs.
use atlasic.Prelude.{String, ◌≡◌, refl, false, none, [], ◌∷◌, ◌++◌, string_eq, pair_eq}
use atlasic.Prelude.Table.{lookup}
use atlasic.Prelude.Exec.{err, wrap, io}
use atlasic.A2a.{TaskPushNotificationConfig}
use atlasic.Storage.FileSystem.{file_system, new_file_system_storage}
use atlasic.Storage.FileSystem.Ready.{IsReady, snapshot, stream}
use atlasic.Updater.{TaskUpdater, creation_updater}
use atlasic.Service.{JobConfig, apply_task_updates}
use atlasic.Service.Updates.{key_of}
use atlasic.Service.Torn.Failing.{failing, apply_task_updates-failing}
use atlasic.Queue.{Queue, by_channel, enqueue, dequeue}
use atlasic.Queue.Fifo.{Reachable, created, enqueues, dequeues, InOrder, Reachable-InOrder}
use atlasic.Tests.Fixtures.{settings, queue, hello, new_server, server_on, new_storage-IsReady}

abbrev job_of : String → JobConfig
job_of id = record {
  task_id = id;
  context_id = "context";
  incoming_message_id = "";
  accepted_output_modes = [];
}

-- A queue of two jobs from which the first has been taken.
abbrev one_left : Queue
one_left = record { jobs = job_of "t2" ∷ []; size = 4; closed = false }

one_left-Reachable : Reachable 4 one_left (job_of "t1" ∷ job_of "t2" ∷ []) (job_of "t1" ∷ [])
unfolding enqueue dequeue
one_left-Reachable =
    dequeues by_channel (job_of "t1")
      (enqueues by_channel (job_of "t2")
        (enqueues {q' = record { jobs = job_of "t1" ∷ []; size = 4; closed = false }} by_channel
          (job_of "t1") created refl)
        refl)
      refl

Reachable-InOrder_example : InOrder 4 one_left (job_of "t1" ∷ job_of "t2" ∷ []) (job_of "t1" ∷ [])
Reachable-InOrder_example =
    Reachable-InOrder 4 one_left (job_of "t1" ∷ job_of "t2" ∷ []) (job_of "t1" ∷ [])
      one_left-Reachable

abbrev hook : TaskPushNotificationConfig
hook = record {
  task_id = "task";
  config = record {
    url = "https://example.com/hook";
    id = "config";
    token = "";
    authentication = none;
  };
}

abbrev first_write : TaskUpdater
first_write = creation_updater "task" "context" hello

apply_task_updates-failing_example :
    let (r, s') =
      apply_task_updates settings file_system queue first_write
        (server_on (failing new_file_system_storage)) in
    (r ≡ err (wrap (wrap (wrap io))))
    × IsReady s'.storage
    × ((id : String) → snapshot s'.storage id ≡ snapshot new_file_system_storage id)
    × (stream s'.storage (key_of first_write.task)
        ≡ stream new_file_system_storage (key_of first_write.task) ++ first_write.pending_events)
unfolding creation_updater lookup
apply_task_updates-failing_example =
    apply_task_updates-failing settings queue first_write new_server new_storage-IsReady (λ e. cc)
      refl
