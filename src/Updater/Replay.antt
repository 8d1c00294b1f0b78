-- ===== src/Updater/Replay.antt =====
-- The event stream as the source of a task: what a reader that folds the events of
-- task_updater.go rebuilds.
use atlasic.Prelude.{
  ℕ, String, ◌≡◌, ◌≢◌, refl, ◌∙◌, Option, none, some, List, [], ◌∷◌, ◌++◌, map, map-append,
}
use atlasic.A2a.{
  Message, Task, TaskStatus, Artifact, StreamResponse, task_event, message_event, status_event,
  artifact_event,
}
use atlasic.Updater
use atlasic.Updater.{TaskUpdater, upsert, cloned, new_task_updater, created_task, creation_updater}

-- A task with its messages as the events carry them, marked with the ids of context and task.
abbrev pub view : Task → Task
view t = record t { history = map (cloned t) t.history }

-- A change of a task by an event. A creation event starts the task anew.
unfoldable pub apply_event : Option Task → StreamResponse → Option Task
unfolding upsert
apply_event o (task_event t) = some (view t)
apply_event none e = none
apply_event (some t) (message_event m) = some (record t { history = t.history ++ m ∷ [] })
apply_event (some t) (status_event e) = some (record t { status = e.status })
apply_event (some t) (artifact_event e) =
    some (record t { artifacts = upsert e.artifact t.artifacts })

unfoldable pub replay_from : Option Task → List StreamResponse → Option Task
unfolding apply_event
replay_from o [] = o
replay_from o (e ∷ es) = replay_from (apply_event o e) es

-- What the events of a stream make of nothing.
abbrev pub replay : List StreamResponse → Option Task
replay = replay_from none

pub replay_from-append :
    (o : Option Task) (es fs : List StreamResponse)
    → replay_from o (es ++ fs) ≡ replay_from (replay_from o es) fs
unfolding replay_from
replay_from-append o [] fs = refl
replay_from-append o (e ∷ es) fs = replay_from-append (apply_event o e) es fs

-- The updater's events, folded over the task that it started from, give the task that it has.
pub record InStep (start : Option Task) (tu : TaskUpdater) : Type 0 where
  pub replayed : replay_from start tu.pending_events ≡ some (view tu.task)

module _ (start : Option Task) (tu : TaskUpdater) (h : InStep start tu) where
  -- One more event, that does to the view what was done to the task.
  InStep-after :
      (t : Task) (e : StreamResponse)
      → apply_event (some (view tu.task)) e ≡ some (view t)
      → InStep start (record tu { task = t; pending_events = tu.pending_events ++ e ∷ [] })
  InStep-after t e step = record {
    replayed =
        replay_from-append start tu.pending_events (e ∷ [])
        ∙ rw h.replayed (unfold replay_from in step);
  }

  pub add_message-InStep : (m : Message) → InStep start (Updater.add_message m tu)
  unfolding Updater.add_message apply_event
  add_message-InStep m = InStep-after _ _ (simp map-append)

  pub update_status-InStep : (st : TaskStatus) → InStep start (Updater.update_status st tu)
  unfolding Updater.update_status apply_event
  update_status-InStep st = InStep-after _ _ refl

  pub upsert_artifact-InStep : (a : Artifact) → InStep start (Updater.upsert_artifact a tu)
  unfolding Updater.upsert_artifact apply_event
  upsert_artifact-InStep a = InStep-after _ _ refl

pub new_task_updater-InStep : (t : Task) (v : ℕ) → InStep (some (view t)) (new_task_updater t v)
unfolding new_task_updater replay_from
new_task_updater-InStep t v = record { replayed = refl }

pub creation_updater-InStep :
    (task_id context_id : String) (m : Message) (o : Option Task)
    → InStep o (creation_updater task_id context_id m)
unfolding creation_updater replay_from
creation_updater-InStep task_id context_id m o = record { replayed = refl }

-- What a caller does to an updater.
pub data Change : Type 0 where
  adds : Message → Change
  sets : TaskStatus → Change
  upserts : Artifact → Change

abbrev pub change : TaskUpdater → Change → TaskUpdater
change tu (adds m) = Updater.add_message m tu
change tu (sets st) = Updater.update_status st tu
change tu (upserts a) = Updater.upsert_artifact a tu

abbrev pub changes : TaskUpdater → List Change → TaskUpdater
changes tu [] = tu
changes tu (c ∷ cs) = changes (change tu c) cs

changes-InStep :
    (start : Option Task) (tu : TaskUpdater) (cs : List Change)
    → InStep start tu
    → InStep start (changes tu cs)
changes-InStep start tu [] h = h
changes-InStep start tu (adds m ∷ cs) h =
    changes-InStep start (Updater.add_message m tu) cs (add_message-InStep start tu h m)
changes-InStep start tu (sets st ∷ cs) h =
    changes-InStep start (Updater.update_status st tu) cs (update_status-InStep start tu h st)
changes-InStep start tu (upserts a ∷ cs) h =
    changes-InStep start (Updater.upsert_artifact a tu) cs (upsert_artifact-InStep start tu h a)

-- Whatever is done to a new updater, its pending events folded over the view of the task that it
-- was made from give the view of the task that it holds.
pub replay-changes :
    (t : Task) (v : ℕ) (cs : List Change)
    → replay_from (some (view t)) (changes (new_task_updater t v) cs).pending_events
      ≡ some (view (changes (new_task_updater t v) cs).task)
replay-changes t v cs =
    (changes-InStep (some (view t)) (new_task_updater t v) cs
      (new_task_updater-InStep t v)).replayed

-- What every change of a new updater leaves as it was.
pub record OneChange (t : Task) (v : ℕ) (tu : TaskUpdater) : Type 0 where
  pub id : tu.task.id ≡ t.id
  pub context_id : tu.task.context_id ≡ t.context_id
  pub initial_version : tu.initial_version ≡ v
  pub pending : tu.pending_events ≢ []
  pub replayed : replay_from (some (view t)) tu.pending_events ≡ some (view tu.task)

pub change-OneChange :
    (t : Task) (v : ℕ) (ch : Change) → OneChange t v (change (new_task_updater t v) ch)
unfolding new_task_updater Updater.add_message Updater.update_status Updater.upsert_artifact
change-OneChange t v (adds m) = record {
  id = refl;
  context_id = refl;
  initial_version = refl;
  pending = λ e. cc;
  replayed = replay-changes t v (adds m ∷ []);
}
change-OneChange t v (sets x) = record {
  id = refl;
  context_id = refl;
  initial_version = refl;
  pending = λ e. cc;
  replayed = replay-changes t v (sets x ∷ []);
}
change-OneChange t v (upserts a) = record {
  id = refl;
  context_id = refl;
  initial_version = refl;
  pending = λ e. cc;
  replayed = replay-changes t v (upserts a ∷ []);
}
