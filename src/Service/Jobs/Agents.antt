-- ===== src/Service/Jobs/Agents.antt =====
-- The calls of an agent on its handle (atlasic.go, task_handle.go), and the invariant that they keep.
use atlasic.Prelude.{
  suc, String, ◌≡◌, refl, subst, ◌∙◌, Option, none, some, List, [], ◌∷◌, ◌++◌, string_eq, pair_eq,
  length, Bool-cases, inl, inr, ℤ,
}
use atlasic.Prelude.Exec.{wrap_result}
use atlasic.A2a.{
  role_agent, new_message, TaskState, working, Part, MessageOptions, Task, TaskStatus, Artifact,
}
use atlasic.Storage.{Storage, Lawful}
use atlasic.Updater.{upsert}
use atlasic.Service.{
  Settings, JobQueue, State, is_canceled, update_status, upsert_artifact, on_storage,
}
use atlasic.Service.Coherence.{IsCurrent, OthersKept}
use atlasic.Service.Writes.{
  status_of, update_status-canceled, update_status-IsCurrent, add_message-IsCurrent,
  upsert_artifact-IsCurrent,
}
use atlasic.Service.Jobs.{
  Agent, returns, fails, updates_status, adds_message, upserts_artifact, reads_task, execute, track,
  handle_add_message,
}

-- The tracker has the task's status once there was an update, and before that it is "working".
abbrev pub Tracks : Option TaskStatus → TaskStatus → Type 0
Tracks none status = status.state ≡ working
Tracks (some last) status = status ≡ last

module _ (st : Storage) (laws : Lawful st) where
  open laws use {snapshot, stream}

  pub OthersKept-trans :
      (t t' : Task) (a b d : st.State)
      → t'.id ≡ t.id
      → t'.context_id ≡ t.context_id
      → OthersKept st laws t a b
      → OthersKept st laws t' b d
      → OthersKept st laws t a d
  OthersKept-trans t t' a b d id context ab bd = record {
    snapshots = λ i other. bd.snapshots i (rw id other) ∙ ab.snapshots i other;
    streams = λ key other. bd.streams key (rw (id, context) other) ∙ ab.streams key other;
  }

  -- Since the storage `a`, only the task of `t` has been written, and it is coherent.
  pub record Holds (t : Task) (a b : st.State) (last : Option TaskStatus) : Type 0 where
    pub task : Task
    pub id : task.id ≡ t.id
    pub context_id : task.context_id ≡ t.context_id
    pub current : IsCurrent st laws b task
    pub tracked : Tracks last task.status
    pub others : OthersKept st laws t a b

module _ (c : Settings) (st : Storage) (q : JobQueue) (laws : Lawful st) where
  open laws use {snapshot, stream}
  open laws use {get_task_unchanged}

  module _ (t : Task) (a : st.State) (last : Option TaskStatus) (s : State c st q)
      (h : Holds st laws t a s.storage last) where
    update_status-Holds_at :
        (state : TaskState) (parts : Option (List Part)) (opts : MessageOptions)
        → let (r, s') = update_status c st q h.task.id state parts opts s in
          Holds st laws t a s'.storage (track r last)
    update_status-Holds_at state parts opts = elim (Bool-cases (is_canceled h.task.status.state)) [
      | inl done ↦
          rw (update_status-canceled c st q laws h.task s h.current state parts opts done) (record {
            task = h.task;
            id = h.id;
            context_id = h.context_id;
            current = h.current;
            tracked = h.tracked;
            others = h.others;
          })
      | inr open_ ↦
          let (r, current, others) =
            update_status-IsCurrent c st q laws h.task s h.current state parts opts open_ in
          rw r (record {
            task = record h.task { status = status_of c st q laws s.generated state parts opts };
            id = h.id;
            context_id = h.context_id;
            current = current;
            tracked = refl;
            others =
                OthersKept-trans st laws t h.task a s.storage _ h.id h.context_id h.others others;
          })
    ]

    pub update_status-Holds :
        (state : TaskState) (parts : Option (List Part)) (opts : MessageOptions)
        → let (r, s') = update_status c st q t.id state parts opts s in
          Holds st laws t a s'.storage (track r last)
    update_status-Holds state parts opts =
        subst
          (λ (i : String).
            let (r, s') = update_status c st q i state parts opts s in
            Holds st laws t a s'.storage (track r last))
          h.id (update_status-Holds_at state parts opts)

    handle_add_message-Holds :
        (parts : List Part) (opts : MessageOptions)
        → Holds st laws t a (handle_add_message c st q t.id parts opts s).1.storage last
    handle_add_message-Holds parts opts =
        subst
          (λ (i : String).
            Holds st laws t a (handle_add_message c st q i parts opts s).1.storage last)
          h.id
          (unfold handle_add_message in
            let (r, current, others) =
              add_message-IsCurrent c st q laws h.task (record s { generated = suc s.generated })
                h.current (c.message_id s.generated) role_agent parts opts in
            record {
              task = record h.task {
                history =
                    h.task.history
                    ++ new_message (c.message_id s.generated) role_agent parts opts ∷ [];
              };
              id = h.id;
              context_id = h.context_id;
              current = current;
              tracked = h.tracked;
              others =
                  OthersKept-trans st laws t h.task a s.storage _ h.id h.context_id h.others others;
            })

    upsert_artifact-Holds :
        (x : Artifact) → Holds st laws t a (upsert_artifact c st q t.id x s).1.storage last
    upsert_artifact-Holds x =
        subst (λ (i : String). Holds st laws t a (upsert_artifact c st q i x s).1.storage last) h.id
          (let (r, current, others) = upsert_artifact-IsCurrent c st q laws h.task s h.current x in
            record {
              task = record h.task { artifacts = upsert x h.task.artifacts };
              id = h.id;
              context_id = h.context_id;
              current = current;
              tracked = h.tracked;
              others =
                  OthersKept-trans st laws t h.task a s.storage _ h.id h.context_id h.others others;
            })

    reads_task-Holds : (length : ℤ) → Holds st laws t a (st.get_task t.id length s.storage).1 last
    reads_task-Holds length = rw (get_task_unchanged t.id length s.storage h.current.ready) h

  -- From a storage that holds the task, so does every run of an agent end.
  pub execute-Holds :
      (t : Task) (a : st.State) (agent : Agent) (last : Option TaskStatus) (s : State c st q)
      → Holds st laws t a s.storage last
      → let (outcome, last', s') = execute c st q t.id agent last s in
        Holds st laws t a s'.storage last'
  unfolding execute
  execute-Holds t a (returns message) last s h = h
  execute-Holds t a (fails e) last s h = h
  execute-Holds t a (updates_status state parts opts next) last s h =
      let (r, s') = update_status c st q t.id state parts opts s in
      execute-Holds t a (next r) (track r last) s'
        (update_status-Holds t a last s h state parts opts)
  execute-Holds t a (adds_message parts opts next) last s h =
      let (r, s') = handle_add_message c st q t.id parts opts s in
      execute-Holds t a (next r) last s' (handle_add_message-Holds t a last s h parts opts)
  execute-Holds t a (upserts_artifact x next) last s h =
      let (r, s') = upsert_artifact c st q t.id x s in
      execute-Holds t a (next (wrap_result r)) last s' (upsert_artifact-Holds t a last s h x)
  execute-Holds t a (reads_task length next) last s h =
      let (r, s') = on_storage c st q (st.get_task t.id length) s in
      execute-Holds t a (next (wrap_result r)) last s' (reads_task-Holds t a last s h length)
