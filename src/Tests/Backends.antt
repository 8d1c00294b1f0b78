-- ===== src/Tests/Backends.antt =====
-- The theorems on the S3 backend, and on what backends have in common, at concrete inputs.
use atlasic.Prelude.{◌≡◌, refl, List, [], ◌∷◌, string_eq, pos, negsuc}
use atlasic.Prelude.Table.{Table, lookup}
use atlasic.A2a.{Task}
use atlasic.Storage.FileSystem.{file_system, new_file_system_storage}
use atlasic.Storage.ObjectStore.{Key, Object}
use atlasic.Storage.ObjectStore.Tables.{table_store, table_store_laws}
use atlasic.Storage.S3
use atlasic.Storage.S3.{
  write_task, context_prefix, s3_storage, task_key, context_index_key, list_tasks_by_context,
}
use atlasic.Storage.S3.Reading.{IsReady}
use atlasic.Storage.S3.Laws.{s3_laws}
use atlasic.Storage.Abstract.{Request, AreCommon, get_task, save_task, append, load, calls}
use atlasic.Storage.Abstract.Backends.{file_system-s3_agree}
use atlasic.Updater.{created_task}
use atlasic.Tests.Fixtures.{hello, two_events}

-- The empty bucket, with keys under a prefix of one segment.
abbrev prefix : Key
prefix = "agents" ∷ []

abbrev bucket : Table Key Object
bucket = []

bucket-IsReady : IsReady table_store prefix table_store_laws bucket
unfolding lookup
bucket-IsReady = record { works = tt; tasks = λ id. tt; events = λ c t. tt }

abbrev a_task : Task
a_task = created_task "task" "context" hello

-- A task is written at version 2 with its events, a second writer is refused, and all is read.
abbrev requests : List Request
requests =
    append "context" "task" 0 two_events
    ∷ save_task a_task 0 2
    ∷ append "context" "task" 0 two_events
    ∷ save_task a_task 0 2
    ∷ get_task "task" (pos 1)
    ∷ load "context" "task" 1 (negsuc 0)
    ∷ []

requests-AreCommon : AreCommon requests
requests-AreCommon = (tt, (tt, (tt, (tt, ((λ e. cc), (tt, tt))))))

file_system-s3_agree_example :
    (calls file_system requests new_file_system_storage).0
    ≡ (calls (s3_storage table_store prefix) requests bucket).0
unfolding lookup
file_system-s3_agree_example =
    file_system-s3_agree table_store prefix table_store_laws bucket tt (λ k. refl) requests
      requests-AreCommon

-- The bucket once the task has been saved.
abbrev filled : Table Key Object
filled = (S3.save_task table_store prefix a_task 0 2 bucket).1

filled-IsReady : IsReady table_store prefix table_store_laws filled
unfolding lookup
filled-IsReady =
    (s3_laws table_store prefix table_store_laws).save_task_ready a_task 0 2 bucket bucket-IsReady
      tt
