-- ===== src/Tests/Handles.antt =====
-- The theorems on what an agent reads through its handle, at concrete inputs.
use atlasic.Prelude.{◌≡◌, List, string_eq, pair_eq}
use atlasic.Prelude.Exec.{ok}
use atlasic.A2a.{Message, new_message}
use atlasic.Storage.FileSystem.{file_system}
use atlasic.Storage.FileSystem.Laws.{file_system_laws}
use atlasic.Service.Handle.{get_history_since, IsSince, get_history_since-IsSince}
use atlasic.Tests.Fixtures.{settings, queue, started, started_task, started-IsCurrent}

get_history_since-IsSince_example :
    (found : List Message) × (get_history_since settings file_system queue "context" "task" "m1"
        started
      ≡ (ok found, started))
    × IsSince "m1" started_task.history found
unfolding new_message
get_history_since-IsSince_example =
    get_history_since-IsSince settings file_system queue file_system_laws started_task "m1" started
      started-IsCurrent
