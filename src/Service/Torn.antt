-- ===== src/Service/Torn.antt =====
-- A task whose events are ahead of its snapshot: `applyTaskUpdates` (task_updater.go) writes the
-- events first and the snapshot second, so a failure in between leaves such a task.
pub mod Failing
use atlasic.Prelude.{ℕ, String, ◌≡◌, ◌≢◌, refl, some, List, string_eq, pair_eq, u64, length, negsuc}
use atlasic.Prelude.Exec.{ok, err, wrap, version_mismatch}
use atlasic.A2a.{Role, Part, MessageOptions, new_message, Task}
use atlasic.Storage.{Storage, Lawful, history_length_all}
use atlasic.Updater
use atlasic.Updater.{TaskUpdater, new_task_updater}
use atlasic.Updater.Replay.{adds, OneChange, change-OneChange}
use atlasic.Service.{Settings, JobQueue, State, add_message, apply_task_updates}
use atlasic.Service.Updates.{key_of, apply_task_updates-stale}

module _ (c : Settings) (st : Storage) (q : JobQueue) (laws : Lawful st) where
  open laws use {Ready, snapshot, stream, get_task_found}

  module _ (t : Task) (v : ℕ) (s : State c st q) (ready : Ready s.storage)
      (stored : snapshot s.storage t.id ≡ some (t, v))
      (ahead : v ≢ u64 (length (stream s.storage (key_of t)))) where
    got : st.get_task t.id history_length_all s.storage ≡ (ok (t, v), s.storage)
    got = get_task_found t.id (negsuc 0) s.storage t v ready (λ e. cc) stored

    refused :
        (tu : TaskUpdater)
        → OneChange t v tu
        → apply_task_updates c st q tu s
          ≡ (err (wrap (version_mismatch v (u64 (length (stream s.storage (key_of t)))))), s)
    refused tu one =
        let moved : tu.initial_version ≢ u64 (length (stream s.storage (key_of tu.task))) =
          rw (one.initial_version, one.context_id, one.id) ahead in
        rw (apply_task_updates-stale c st q laws tu s ready one.pending moved)
          (rw (one.initial_version, one.context_id, one.id) refl)

    -- A task whose stream is not at the version of its snapshot takes no message any more: every
    -- attempt ends in the version mismatch and changes nothing, so the next one finds the same.
    pub add_message-ahead :
        (message_id : String) (role : Role) (parts : List Part) (opts : MessageOptions)
        → add_message c st q t.id message_id role parts opts s
          ≡ (err (wrap (version_mismatch v (u64 (length (stream s.storage (key_of t)))))), s)
    unfolding add_message
    add_message-ahead message_id role parts opts =
        rw
          (
            got,
            refused
                (Updater.add_message (new_message message_id role parts opts)
                  (new_task_updater t v))
                (change-OneChange t v (adds (new_message message_id role parts opts))),
          )
          refl
