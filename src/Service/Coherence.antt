-- ===== src/Service/Coherence.antt =====
-- Event sourcing (task_updater.go, atlasic.go): what it is for the snapshot of a task to agree with
-- its event stream, and the lemma on one change of a task by which operations keep them so.
use atlasic.Prelude.{
  ℕ, ◌+◌, String, false, ◌≡◌, refl, ap, ◌∙◌, none, some, ◌++◌, ◌==◌, string_eq, pair_eq, u64,
  length, length-append, beq_self, not, ◌&&◌, List, subst, arith, negsuc,
}
use atlasic.Prelude.Exec.{ok}
use atlasic.A2a.{Task, StreamResponse, PushNotificationConfig}
use atlasic.Storage.{Storage, Lawful, history_length_all}
use atlasic.Updater.{TaskUpdater}
use atlasic.Updater.Replay.{view, replay, replay_from-append, OneChange}
use atlasic.Service.{Settings, JobQueue, State, apply_task_updates}
use atlasic.Service.Updates.{key_of, Notifies, IsFresh, Written, apply_task_updates-Written}

module _ (st : Storage) (laws : Lawful st) where
  open laws use {Ready, snapshot, stream}

  -- The storage holds `t` at the version that its stream has, and the stream replays to it.
  pub record IsCurrent (s : st.State) (t : Task) : Type 0 where
    pub ready : Ready s
    pub stored : snapshot s t.id ≡ some (t, u64 (length (stream s (key_of t))))
    pub replayed : replay (stream s (key_of t)) ≡ some (view t)

  -- Nothing but the task `t` and its stream differs.
  pub record OthersKept (t : Task) (s s' : st.State) : Type 0 where
    pub snapshots : (id : String) → (t.id == id) ≡ false → snapshot s' id ≡ snapshot s id
    pub streams : (key : String × String) → (key_of t == key) ≡ false → stream s' key ≡ stream s key

module _ (c : Settings) (st : Storage) (q : JobQueue) (laws : Lawful st) where
  open laws use {stream, get_task_found, configs}

  -- The push notifier was asked to deliver just the events that the task's stream got, no job was
  -- enqueued, and `n` is the count of generated values.
  pub record Announced (t : Task) (n : ℕ) (s s' : State c st q) : Type 0 where
    pub added : List StreamResponse
    pub grown : stream s'.storage (key_of t) ≡ stream s.storage (key_of t) ++ added
    pub sent : List (PushNotificationConfig × StreamResponse)
    pub notified : s'.notified ≡ s.notified ++ sent
    pub notifies :
        Notifies
          (not c.disable_push_notifications && c.has_push_notifier)
          added
          (configs s'.storage t.id)
          sent
    pub jobs : s'.jobs ≡ s.jobs
    pub generated : s'.generated ≡ n

  pub get_current :
      (t : Task) (s : st.State)
      → IsCurrent st laws s t
      → st.get_task t.id history_length_all s ≡ (ok (t, u64 (length (stream s (key_of t)))), s)
  get_current t s cur = get_task_found t.id (negsuc 0) s t _ cur.ready (λ e. cc) cur.stored

  module _ (t : Task) (v : ℕ) (tu : TaskUpdater) (one : OneChange t v tu) (s : State c st q)
      (cur : IsCurrent st laws s.storage t)
      (is_v : v ≡ u64 (length (stream s.storage (key_of t)))) where
    same_key : key_of tu.task ≡ key_of t
    same_key = cc (one.id, one.context_id)

    one-IsFresh : IsFresh c st q laws tu s
    one-IsFresh = record {
      ready = cur.ready;
      version = rw same_key (one.initial_version ∙ is_v);
      can_save = rw (one.id, cur.stored) (one.initial_version ∙ is_v);
    }

    abbrev after_change : State c st q
    after_change = (apply_task_updates c st q tu s).1

    one-Written : Written c st q laws tu s after_change
    one-Written = (apply_task_updates-Written c st q laws tu s one-IsFresh one.pending).1

    stream-after :
        stream after_change.storage (key_of tu.task)
        ≡ stream s.storage (key_of t) ++ tu.pending_events
    stream-after =
        one-Written.streams (key_of tu.task)
        ∙ rw (beq_self {A = String × String} (key_of tu.task), same_key) refl

    pub after-IsCurrent : IsCurrent st laws after_change.storage tu.task
    after-IsCurrent = record {
      ready = one-Written.ready;
      stored =
          one-Written.snapshots tu.task.id
          ∙ rw (beq_self tu.task.id, stream-after)
              (ap (λ (n : ℕ). some (tu.task, n))
                (omega (
                  arith,
                  one.initial_version,
                  is_v,
                  length-append (stream s.storage (key_of t)) tu.pending_events,
                )));
      replayed =
          rw
            (
              stream-after,
              replay_from-append none (stream s.storage (key_of t)) tu.pending_events,
              cur.replayed,
            )
            one.replayed;
    }

    pub after-Announced : Announced t s.generated s after_change
    after-Announced = record {
      added = tu.pending_events;
      grown =
          subst
            (λ key.
              stream after_change.storage key ≡ stream s.storage (key_of t) ++ tu.pending_events)
            same_key stream-after;
      sent = one-Written.sent;
      notified = one-Written.notified;
      notifies =
          subst
            (λ id.
              Notifies (not c.disable_push_notifications && c.has_push_notifier) tu.pending_events
                (configs after_change.storage id) one-Written.sent)
            one.id one-Written.notifies;
      jobs = one-Written.jobs;
      generated = one-Written.generated;
    }

    pub one_returns :
        (apply_task_updates c st q tu s).0
        ≡ ok (record tu { version = u64 (tu.initial_version + length tu.pending_events) })
    one_returns = (apply_task_updates-Written c st q laws tu s one-IsFresh one.pending).0

    pub after-OthersKept : OthersKept st laws t s.storage after_change.storage
    after-OthersKept = record {
      snapshots = λ id other. one-Written.snapshots id ∙ rw (one.id, other) refl;
      streams = λ key other. one-Written.streams key ∙ rw (one.context_id, one.id, other) refl;
    }
