-- ===== src/Tests/Backend.antt =====
-- The theorems on the file system backend at concrete inputs.
use atlasic.Prelude.{◌≡◌, refl, false, List, [], ◌∷◌, string_eq, pair_eq, negsuc}
use atlasic.Prelude.Table.{lookup}
use atlasic.Prelude.Exec.{err, context_not_found}
use atlasic.A2a.{StreamResponse, working}
use atlasic.Storage.FileSystem.{Disk, new_file_system_storage, list_tasks_by_context, save_task}
use atlasic.Storage.FileSystem.Contexts.{
  Reachable, created, after, Step, list_tasks_by_context-Reachable,
}
use atlasic.Storage.FileSystem.Contexts
use atlasic.Updater.{created_task}
use atlasic.Tests.Fixtures.{hello, event_of}

-- A third event for the stream of `log`.
abbrev more : List StreamResponse
more = event_of working false ∷ []

-- The disk after a task has been saved in the context that is listed.
abbrev with_task : Disk
with_task = (save_task (created_task "task" "context" hello) 0 1 new_file_system_storage).1

list_tasks_by_context-Reachable_example :
    list_tasks_by_context "context" (negsuc 0) with_task ≡ (err context_not_found, with_task)
unfolding save_task lookup
list_tasks_by_context-Reachable_example =
    list_tasks_by_context-Reachable with_task
      (after created (Contexts.save_task (created_task "task" "context" hello) 0 1)) refl "context"
      (negsuc 0)
