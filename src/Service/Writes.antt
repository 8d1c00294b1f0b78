-- ===== src/Service/Writes.antt =====
-- `addMessage`, `updateStatus`, `upsertArtifact` and `createNewTask` (task_updater.go): what each
-- returns, and that the task stays coherent with its events.
use atlasic.Prelude.{
  ℕ, suc, String, true, false, ◌≡◌, refl, Option, none, some, List, [], ◌∷◌, ◌++◌, string_eq,
  pair_eq, u64, length,
}
use atlasic.Prelude.Exec.{ok, err, cancelled_task}
use atlasic.A2a.{
  Role, role_agent, Part, Message, MessageOptions, new_message, Task, TaskState, TaskStatus,
  Artifact,
}
use atlasic.Storage.{Storage, Lawful}
use atlasic.Updater
use atlasic.Updater.{TaskUpdater, new_task_updater, upsert}
use atlasic.Updater.Replay.{adds, sets, upserts, OneChange, change-OneChange}
use atlasic.Service.{
  Settings, JobQueue, State, add_message, update_status, upsert_artifact, is_canceled,
  status_message,
}
use atlasic.Service.Updates.{key_of}
use atlasic.Service.Coherence.{
  IsCurrent, OthersKept, get_current, Announced, after-Announced, after-IsCurrent, after-OthersKept,
  one_returns,
}

module _ (c : Settings) (st : Storage) (q : JobQueue) (laws : Lawful st) where
  open laws use {stream}

  -- The message that a status of the updater's caller has.
  abbrev pub message_of : ℕ → Option (List Part) → MessageOptions → Option Message
  message_of n none opts = none
  message_of n (some parts) opts = some (new_message (c.message_id n) role_agent parts opts)

  abbrev pub generated_for : ℕ → Option (List Part) → ℕ
  generated_for n none = n
  generated_for n (some parts) = suc n

  abbrev pub status_of : ℕ → TaskState → Option (List Part) → MessageOptions → TaskStatus
  status_of n state parts opts = record {
    state = state;
    message = message_of n parts opts;
    timestamp = some (c.now (generated_for n parts));
  }

  status_message_lem :
      (parts : Option (List Part)) (opts : MessageOptions) (s : State c st q)
      → status_message c st q parts opts s ≡ (
        ok (message_of s.generated parts opts),
        record s { generated = generated_for s.generated parts },
      )
  unfolding status_message
  status_message_lem none opts s = refl
  status_message_lem (some parts) opts s = refl

  module _ (t : Task) (s : State c st q) (cur : IsCurrent st laws s.storage t) where
    abbrev version : ℕ
    version = u64 (length (stream s.storage (key_of t)))

    -- The state after the ids and the time of a status have been generated.
    abbrev ticked : Option (List Part) → State c st q
    ticked parts = record s { generated = suc (generated_for s.generated parts) }

    pub update_status-canceled :
        (state : TaskState) (parts : Option (List Part)) (opts : MessageOptions)
        → is_canceled t.status.state ≡ true
        → update_status c st q t.id state parts opts s ≡ (err cancelled_task, ticked parts)
    unfolding update_status
    update_status-canceled state parts opts h =
        rw (status_message_lem parts opts s, get_current c st q laws t s.storage cur, h) refl

    -- A status update of a task that is coherent and not cancelled returns the status, the task then
    -- has it and is coherent with its events again, and nothing else changes.
    pub update_status-IsCurrent :
        (state : TaskState) (parts : Option (List Part)) (opts : MessageOptions)
        → is_canceled t.status.state ≡ false
        → let (r, s') = update_status c st q t.id state parts opts s in
          (r ≡ ok (status_of s.generated state parts opts))
          × IsCurrent st laws s'.storage
              (record t { status = status_of s.generated state parts opts })
          × OthersKept st laws t s.storage s'.storage
    unfolding update_status
    update_status-IsCurrent state parts opts h =
        let status : TaskStatus = status_of s.generated state parts opts in
        let tu : TaskUpdater = Updater.update_status status (new_task_updater t version) in
        let one : OneChange t version tu = change-OneChange t version (sets status) in
        rw
          (
            status_message_lem parts opts s,
            get_current c st q laws t s.storage cur,
            h,
            one_returns c st q laws t version tu one (ticked parts) cur refl,
          )
          (
            refl,
            after-IsCurrent c st q laws t version tu one (ticked parts) cur refl,
            after-OthersKept c st q laws t version tu one (ticked parts) cur refl,
          )

    -- A message for a task that is coherent comes at the end of its history, the task is coherent
    -- with its events again, and nothing else changes.
    pub add_message-IsCurrent :
        (message_id : String) (role : Role) (parts : List Part) (opts : MessageOptions)
        → let (r, s') = add_message c st q t.id message_id role parts opts s in
          (r ≡ ok message_id)
          × IsCurrent st laws s'.storage
              (record t { history = t.history ++ new_message message_id role parts opts ∷ [] })
          × OthersKept st laws t s.storage s'.storage
    unfolding add_message
    add_message-IsCurrent message_id role parts opts =
        let m : Message = new_message message_id role parts opts in
        let tu : TaskUpdater = Updater.add_message m (new_task_updater t version) in
        let one : OneChange t version tu = change-OneChange t version (adds m) in
        rw
          (
            get_current c st q laws t s.storage cur,
            one_returns c st q laws t version tu one s cur refl,
          )
          (
            refl,
            after-IsCurrent c st q laws t version tu one s cur refl,
            after-OthersKept c st q laws t version tu one s cur refl,
          )

    pub add_message-Announced :
        (message_id : String) (role : Role) (parts : List Part) (opts : MessageOptions)
        → Announced c st q laws t s.generated s
            (add_message c st q t.id message_id role parts opts s).1
    unfolding add_message
    add_message-Announced message_id role parts opts =
        let m : Message = new_message message_id role parts opts in
        let tu : TaskUpdater = Updater.add_message m (new_task_updater t version) in
        let one : OneChange t version tu = change-OneChange t version (adds m) in
        rw
          (
            get_current c st q laws t s.storage cur,
            one_returns c st q laws t version tu one s cur refl,
          )
          (after-Announced c st q laws t version tu one s cur refl)

    -- An artifact for a task that is coherent replaces the one with its id or is added, the task is
    -- coherent with its events again, and nothing else changes.
    pub upsert_artifact-IsCurrent :
        (a : Artifact)
        → let (r, s') = upsert_artifact c st q t.id a s in
          (r ≡ ok tt)
          × IsCurrent st laws s'.storage (record t { artifacts = upsert a t.artifacts })
          × OthersKept st laws t s.storage s'.storage
    unfolding upsert_artifact
    upsert_artifact-IsCurrent a =
        let tu : TaskUpdater = Updater.upsert_artifact a (new_task_updater t version) in
        let one : OneChange t version tu = change-OneChange t version (upserts a) in
        rw
          (
            get_current c st q laws t s.storage cur,
            one_returns c st q laws t version tu one s cur refl,
          )
          (
            refl,
            after-IsCurrent c st q laws t version tu one s cur refl,
            after-OthersKept c st q laws t version tu one s cur refl,
          )
