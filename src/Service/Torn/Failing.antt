-- ===== src/Service/Torn/Failing.antt =====
-- `applyTaskUpdates` (task_updater.go) on the file system backend where the events are written and the
-- snapshot is not.
use atlasic.Prelude.{
  ℕ, ◌+◌, String, Bool, true, false, ◌≡◌, ◌≢◌, refl, ◌∙◌, List, [], ◌∷◌, ◌++◌, string_eq, pair_eq,
  u64, length, beq_self,
}
use atlasic.Prelude.Exec.{ok, err, wrap, io}
use atlasic.A2a.{Task, StreamResponse}
use atlasic.Storage.FileSystem
use atlasic.Storage.FileSystem.{Disk, file_system, append_to, existing_or_empty}
use atlasic.Storage.FileSystem.Ready.{IsReady, snapshot, stream}
use atlasic.Storage.FileSystem.Laws.{
  appended, appended-IsReady, stream-appended, nat_eq_self, existing_events,
}
use atlasic.Updater.{TaskUpdater}
use atlasic.Service.{Settings, JobQueue, State, apply_task_updates, write_updates}
use atlasic.Service.Updates.{key_of, when_pending_lem}

-- The next three calls of package os work, which are those of `Append`, and the fourth fails.
abbrev pub fourth_fails : List Bool
fourth_fails = false ∷ false ∷ false ∷ true ∷ []

abbrev pub failing : Disk → Disk
failing d = record d { faults = fourth_fails }

module _ (c t : String) (expected : ℕ) (es : List StreamResponse) (d : Disk)
    (ready : IsReady d) where
  append-failing :
      expected ≡ u64 (length (stream d (c, t)))
      → FileSystem.append c t expected es (failing d) ≡ (
        ok (u64 (expected + length es)),
        record (appended c t expected es d ready) { faults = true ∷ [] },
      )
  unfolding FileSystem.append FileSystem.write_file FileSystem.os_call
  append-failing e =
      rw (existing_events d (c, t) ready, e, nat_eq_self (u64 (length (stream d (c, t))))) refl

save_task-failing :
    (t : Task) (expected new : ℕ) (d : Disk)
    → d.faults ≡ []
    → FileSystem.save_task t expected new (record d { faults = true ∷ [] })
      ≡ (err (wrap (wrap io)), d)
unfolding FileSystem.save_task FileSystem.get_task_without_lock FileSystem.os_call
save_task-failing t expected new d works = rw works refl

module _ (c : Settings) (q : JobQueue) where
  -- If the append works and the first call of package os in the save fails, the error is reported,
  -- the events stay in the stream, every snapshot is the one from before, and the disk works again:
  -- the task's stream is then ahead of its snapshot.
  pub apply_task_updates-failing :
      (tu : TaskUpdater) (s : State c file_system q)
      → IsReady s.storage
      → tu.pending_events ≢ []
      → tu.initial_version ≡ u64 (length (stream s.storage (key_of tu.task)))
      → let (r, s') =
          apply_task_updates c file_system q tu (record s { storage = failing s.storage }) in
        (r ≡ err (wrap (wrap (wrap io))))
        × IsReady s'.storage
        × ((id : String) → snapshot s'.storage id ≡ snapshot s.storage id)
        × (stream s'.storage (key_of tu.task)
            ≡ stream s.storage (key_of tu.task) ++ tu.pending_events)
  unfolding apply_task_updates
  apply_task_updates-failing tu s ready some_ e =
      let d' : Disk =
        appended tu.task.context_id tu.task.id tu.initial_version tu.pending_events s.storage
          ready in
      let ready' : IsReady d' =
        appended-IsReady tu.task.context_id tu.task.id tu.initial_version tu.pending_events
          s.storage ready in
      rw (when_pending_lem c file_system q tu.pending_events tu some_) (
        unfold write_updates in
        rw
          (
            append-failing tu.task.context_id tu.task.id tu.initial_version tu.pending_events
                s.storage ready e,
            save_task-failing tu.task tu.initial_version
                (u64 (tu.initial_version + length tu.pending_events)) d' ready'.no_faults,
          )
          (
            refl,
            ready',
            (λ id. refl),
            stream-appended tu.task.context_id tu.task.id tu.initial_version tu.pending_events
                  s.storage ready (key_of tu.task)
                ∙ rw (beq_self {A = String × String} (key_of tu.task)) refl,
          ))
