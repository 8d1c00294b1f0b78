-- ===== src/Service/Messages/Creation.antt =====
-- What the storage holds of a task that `createNewTask` has made (task_updater.go).
use atlasic.Prelude.{
  ◌+◌, String, ◌≡◌, refl, ◌∙◌, none, [], string_eq, pair_eq, u64, length, beq_self,
}
use atlasic.Prelude.Exec.{ok}
use atlasic.A2a.{Message}
use atlasic.Storage.{Storage, Lawful}
use atlasic.Updater.{created_task, creation_updater}
use atlasic.Updater.Replay.{creation_updater-InStep}
use atlasic.Service.{Settings, JobQueue, State, create_new_task, apply_task_updates}
use atlasic.Service.Updates.{IsFresh, Written, apply_task_updates-Written}
use atlasic.Service.Coherence.{Announced, IsCurrent, OthersKept}

module _ (c : Settings) (st : Storage) (q : JobQueue) (laws : Lawful st) where
  open laws use {Ready, snapshot, stream}

  module _ (task_id context_id : String) (m : Message) (s : State c st q) (ready : Ready s.storage)
      (unknown_task : snapshot s.storage task_id ≡ none)
      (no_events : stream s.storage (context_id, task_id) ≡ []) where
    creation-IsFresh : IsFresh c st q laws (creation_updater task_id context_id m) s
    unfolding creation_updater
    creation-IsFresh = record {
      ready = ready;
      version = rw no_events refl;
      can_save = rw unknown_task tt;
    }

    creation-Written :
        let tu = creation_updater task_id context_id m in
        ((apply_task_updates c st q tu s).0
          ≡ ok (record tu { version = u64 (tu.initial_version + length tu.pending_events) }))
        × Written c st q laws tu s (apply_task_updates c st q tu s).1
    unfolding creation_updater
    creation-Written = apply_task_updates-Written c st q laws _ s creation-IsFresh (λ e. cc)

    abbrev created_storage : st.State
    created_storage =
        (apply_task_updates c st q (creation_updater task_id context_id m) s).1.storage

    stream-created :
        stream created_storage (context_id, task_id)
        ≡ (creation_updater task_id context_id m).pending_events
    unfolding creation_updater
    stream-created =
        creation-Written.1.streams (context_id, task_id)
        ∙ rw (beq_self {A = String × String} (context_id, task_id), no_events) refl

    created-IsCurrent : IsCurrent st laws created_storage (created_task task_id context_id m)
    unfolding creation_updater
    created-IsCurrent = record {
      ready = creation-Written.1.ready;
      stored = creation-Written.1.snapshots task_id ∙ rw (beq_self task_id, stream-created) refl;
      replayed = rw stream-created ((creation_updater-InStep task_id context_id m none).replayed);
    }

    created-OthersKept :
        OthersKept st laws (created_task task_id context_id m) s.storage created_storage
    unfolding creation_updater
    created-OthersKept = record {
      snapshots = λ id other. creation-Written.1.snapshots id ∙ rw other refl;
      streams = λ key other. creation-Written.1.streams key ∙ rw other refl;
    }

    created-Announced :
        Announced c st q laws
          (created_task task_id context_id m)
          s.generated
          s
          (apply_task_updates c st q (creation_updater task_id context_id m) s).1
    unfolding creation_updater
    created-Announced = record {
      added = (creation_updater task_id context_id m).pending_events;
      grown = rw no_events stream-created;
      sent = creation-Written.1.sent;
      notified = creation-Written.1.notified;
      notifies = creation-Written.1.notifies;
      jobs = creation-Written.1.jobs;
      generated = creation-Written.1.generated;
    }

    pub create_new_task-Announced :
        Announced c st q laws
          (created_task task_id context_id m)
          s.generated
          s
          (create_new_task c st q task_id context_id m s).1
    unfolding create_new_task creation_updater
    create_new_task-Announced = rw creation-Written.0 created-Announced

    -- A task is created with the message as its history and the status "submitted", where the
    -- storage has no task and no events under its ids; nothing else changes.
    pub create_new_task-IsCurrent :
        let (r, s') = create_new_task c st q task_id context_id m s in
        let t = created_task task_id context_id m in
        (r ≡ ok t) × IsCurrent st laws s'.storage t × OthersKept st laws t s.storage s'.storage
    unfolding create_new_task creation_updater
    create_new_task-IsCurrent = rw creation-Written.0 (refl, created-IsCurrent, created-OthersKept)
