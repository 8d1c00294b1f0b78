-- ===== src/Storage/Abstract/Backends.antt =====
-- The file system backend (filesystem_storage.go) and the S3 backend (awsadp/s3_storage.go) as
-- implementations of one abstract storage.
use atlasic.Prelude.{String, ◌≡◌, refl, sym, ◌∙◌, none, List, []}
use atlasic.Prelude.Table.{lookup}
use mathlib.Core.Path.{fun_ext}
use atlasic.Storage.FileSystem.{file_system, new_file_system_storage}
use atlasic.Storage.FileSystem.Ready
use atlasic.Storage.FileSystem.Laws.{file_system_laws}
use atlasic.Storage.ObjectStore.{Key, ObjectStore, StoreLaws}
use atlasic.Storage.S3.{s3_storage, task_key, events_key}
use atlasic.Storage.S3.Reading.{IsReady, task_of, events_of}
use atlasic.Storage.S3.Laws.{s3_laws}
use atlasic.Storage.Abstract.{Request, AreCommon, calls, empty}
use atlasic.Storage.Abstract.Refinement.{view, calls_agree}

new_storage-IsReady : Ready.IsReady new_file_system_storage
unfolding lookup
new_storage-IsReady = record { no_faults = refl; versions = λ key es v e. cc }

new_storage-view : view file_system file_system_laws new_file_system_storage ≡ empty
unfolding lookup
new_storage-view = refl

module _ (o : ObjectStore) (p : Key) (laws : StoreLaws o) where
  open laws use {Works, object}

  module _ (s : o.State) (works : Works s) (nothing : (k : Key) → object s k ≡ none) where
    bucket-IsReady : IsReady o p laws s
    bucket-IsReady = record {
      works = works;
      tasks = λ id. rw (nothing (task_key p id)) tt;
      events = λ c t. rw (nothing (events_key p c t)) tt;
    }

    bucket-view : view (s3_storage o p) (s3_laws o p laws) s ≡ empty
    bucket-view = λ i. record {
      snapshot = fun_ext (λ id. at_task id) i;
      stream = fun_ext (λ key. at_events key) i;
    }
      where
        at_task : (id : String) → task_of (object s (task_key p id)) ≡ none
        at_task id = rw (nothing (task_key p id)) refl

        at_events : (key : String × String) → events_of (object s (events_key p key.0 key.1)) ≡ []
        at_events (c, t) = rw (nothing (events_key p c t)) refl

    -- Started on an empty disk and in an empty bucket, which fail for no reason of their own, the two
    -- backends give the same answers to any calls that read and write snapshots and events, if no
    -- read asks for a history length of 0.
    pub file_system-s3_agree :
        (xs : List Request)
        → AreCommon xs
        → (calls file_system xs new_file_system_storage).0 ≡ (calls (s3_storage o p) xs s).0
    file_system-s3_agree xs common =
        calls_agree file_system file_system_laws (s3_storage o p) (s3_laws o p laws) xs
          new_file_system_storage s new_storage-IsReady bucket-IsReady
          (new_storage-view ∙ sym bucket-view) common
