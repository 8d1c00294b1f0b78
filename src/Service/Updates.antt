-- ===== src/Service/Updates.antt =====
-- `applyTaskUpdates` (task_updater.go) over any lawful storage: what it leaves in the storage when
-- the updater was made from the current snapshot, and that it is refused when it was not.
use atlasic.Prelude.{
  ℕ, ◌+◌, String, ◌≡◌, ◌≢◌, refl, ◌∙◌, some, List, [], ◌∷◌, ◌++◌, ◌==◌, string_eq, pair_eq,
  if◌then◌else◌, u64, length, Bool-cases, inl, inr, Bool, true, false, not, ◌&&◌, map, append-nil,
}
use atlasic.Prelude.Exec.{ok, err, wrap, version_mismatch}
use atlasic.A2a.{Task, StreamResponse, PushNotificationConfig, TaskPushNotificationConfig}
use atlasic.Storage.{Storage, Lawful, CanSave}
use atlasic.Updater.{TaskUpdater}
use atlasic.Service.{
  Settings, JobQueue, State, when_pending, write_updates, apply_task_updates,
  send_push_notifications, push_notifications_enabled, deliveries,
}

abbrev pub key_of : Task → String × String
key_of t = (t.context_id, t.id)

pub when_pending_lem :
    (c : Settings) (st : Storage) (q : JobQueue) (es : List StreamResponse) (tu : TaskUpdater)
    → es ≢ []
    → when_pending c st q es tu ≡ write_updates c st q tu
when_pending_lem c st q [] tu some_ = absurd (some_ refl)
when_pending_lem c st q (e ∷ es) tu some_ = refl

-- One delivery of each event to each endpoint, the events in their order.
abbrev pub EachDelivered :
    List StreamResponse
    → List TaskPushNotificationConfig
    → List (PushNotificationConfig × StreamResponse)
    → Type 0
EachDelivered [] configs sent = sent ≡ []
EachDelivered (e ∷ es) configs sent =
    (later : List (PushNotificationConfig × StreamResponse)) × (sent
      ≡ map (λ c. (c.config, e)) configs ++ later)
    × EachDelivered es configs later

-- The deliveries asked for: to all of the task's endpoints, or none where they are switched off.
abbrev pub Notifies :
    Bool
    → List StreamResponse
    → List TaskPushNotificationConfig
    → List (PushNotificationConfig × StreamResponse)
    → Type 0
Notifies false es configs sent = sent ≡ []
Notifies true es configs sent = EachDelivered es configs sent

deliveries-EachDelivered :
    (es : List StreamResponse) (configs : List TaskPushNotificationConfig)
    → EachDelivered es configs (deliveries es configs)
unfolding deliveries
deliveries-EachDelivered [] configs = refl
deliveries-EachDelivered (e ∷ es) configs =
    (deliveries es configs, refl, deliveries-EachDelivered es configs)

module _ (c : Settings) (st : Storage) (q : JobQueue) (laws : Lawful st) where
  open laws use {
    Ready, snapshot, stream, configs, append_current, append_stale, append_ready, stream-append,
    snapshot-append, save_task_current, save_task_ready, snapshot-save_task, stream-save_task,
    list_push_configs_lem,
  }

  -- The updater was made from what the storage holds now.
  pub record IsFresh (tu : TaskUpdater) (s : State c st q) : Type 0 where
    pub ready : Ready s.storage
    pub version : tu.initial_version ≡ u64 (length (stream s.storage (key_of tu.task)))
    pub can_save : CanSave (snapshot s.storage tu.task.id) tu.initial_version

  -- The updater's task and events have been written, and nothing else has changed.
  pub record Written (tu : TaskUpdater) (s s' : State c st q) : Type 0 where
    pub ready : Ready s'.storage
    pub snapshots :
        (id : String)
        → snapshot s'.storage id ≡ (
            if tu.task.id == id
            then some (tu.task, u64 (tu.initial_version + length tu.pending_events))
            else snapshot s.storage id)
    pub streams :
        (key : String × String)
        → stream s'.storage key ≡ (
            if key_of tu.task == key
            then stream s.storage (key_of tu.task) ++ tu.pending_events
            else stream s.storage key)
    pub jobs : s'.jobs ≡ s.jobs
    pub generated : s'.generated ≡ s.generated
    pub sent : List (PushNotificationConfig × StreamResponse)
    pub notified : s'.notified ≡ s.notified ++ sent
    pub notifies :
        Notifies
          (not c.disable_push_notifications && c.has_push_notifier)
          tu.pending_events
          (configs s'.storage tu.task.id)
          sent

  abbrev sent_for :
      Bool
      → String
      → List StreamResponse
      → st.State
      → List (PushNotificationConfig × StreamResponse)
  sent_for false id es s = []
  sent_for true id es s = deliveries es (configs s id)

  sent_for-Notifies :
      (on : Bool) (id : String) (es : List StreamResponse) (s : st.State)
      → Notifies on es (configs s id) (sent_for on id es s)
  sent_for-Notifies false id es s = refl
  sent_for-Notifies true id es s = deliveries-EachDelivered es (configs s id)

  enabled-Notifies :
      (id : String) (es : List StreamResponse) (s : st.State)
      → Notifies
          (not c.disable_push_notifications && c.has_push_notifier)
          es
          (configs s id)
          (sent_for (push_notifications_enabled c) id es s)
  unfolding push_notifications_enabled
  enabled-Notifies id es s = sent_for-Notifies _ id es s

  send_push_notifications_lem :
      (id : String) (es : List StreamResponse) (s : State c st q)
      → Ready s.storage
      → send_push_notifications c st q id es s ≡ record s {
        notified = s.notified ++ sent_for (push_notifications_enabled c) id es s.storage;
      }
  unfolding send_push_notifications
  send_push_notifications_lem id es s ready = elim (Bool-cases (push_notifications_enabled c)) [
    | inl on ↦ rw (on, list_push_configs_lem id s.storage ready) refl
    | inr off ↦ rw (off, append-nil s.notified) refl
  ]

  module _ (tu : TaskUpdater) (s : State c st q) (fresh : IsFresh tu s) where
    abbrev events_appended : st.State
    events_appended =
        (st.append tu.task.context_id tu.task.id tu.initial_version tu.pending_events s.storage).1

    abbrev new_version : ℕ
    new_version = u64 (tu.initial_version + length tu.pending_events)

    abbrev snapshot_saved : st.State
    snapshot_saved = (st.save_task tu.task tu.initial_version new_version events_appended).1

    appended_ready : Ready events_appended
    appended_ready = append_ready _ _ _ _ _ fresh.ready fresh.version

    appended-CanSave : CanSave (snapshot events_appended tu.task.id) tu.initial_version
    appended-CanSave = rw (snapshot-append _ _ _ _ _ _ fresh.ready fresh.version) fresh.can_save

    write_updates_lem : write_updates c st q tu s ≡ (
      ok (record tu { version = new_version }),
      send_push_notifications c st q tu.task.id tu.pending_events
          (record s { storage = snapshot_saved }),
    )
    unfolding write_updates
    write_updates_lem =
        rw
          (
            append_current tu.task.context_id tu.task.id tu.initial_version tu.pending_events
                s.storage fresh.ready fresh.version,
            save_task_current tu.task tu.initial_version new_version events_appended appended_ready
                appended-CanSave,
          )
          refl

    saved_ready : Ready snapshot_saved
    saved_ready = save_task_ready tu.task _ _ events_appended appended_ready appended-CanSave

    abbrev after : State c st q
    after =
        send_push_notifications c st q tu.task.id tu.pending_events
          (record s { storage = snapshot_saved })

    after_storage : after.storage ≡ snapshot_saved
    after_storage =
        rw
          (send_push_notifications_lem tu.task.id tu.pending_events
            (record s { storage = snapshot_saved }) saved_ready)
          refl

    after-Written : Written tu s after
    after-Written =
        rw
          (send_push_notifications_lem tu.task.id tu.pending_events
            (record s { storage = snapshot_saved }) saved_ready)
          (record {
            ready = saved_ready;
            snapshots = λ id.
                snapshot-save_task tu.task _ _ events_appended id appended_ready appended-CanSave
                ∙ rw
                    (snapshot-append tu.task.context_id tu.task.id tu.initial_version
                      tu.pending_events s.storage id fresh.ready fresh.version)
                    refl;
            streams = λ key.
                stream-save_task tu.task _ _ events_appended key appended_ready appended-CanSave
                ∙ stream-append tu.task.context_id tu.task.id tu.initial_version tu.pending_events
                    s.storage key fresh.ready fresh.version;
            jobs = refl;
            generated = refl;
            sent = _;
            notified = refl;
            notifies = enabled-Notifies tu.task.id tu.pending_events snapshot_saved;
          })

    -- The call of an updater with events, made from the current snapshot, returns the updater at
    -- the new version, and has written its task and its events and nothing else; no job is enqueued,
    -- nothing is generated, and where push notifications are on, each event is delivered once to each
    -- endpoint of the task, the events in their order.
    pub apply_task_updates-Written :
        tu.pending_events ≢ []
        → ((apply_task_updates c st q tu s).0 ≡ ok (record tu { version = new_version }))
          × Written tu s (apply_task_updates c st q tu s).1
    unfolding apply_task_updates
    apply_task_updates-Written some_ =
        rw (when_pending_lem c st q tu.pending_events tu some_, write_updates_lem)
          (refl, after-Written)

  -- An updater made from an older version is refused, and nothing changes.
  pub apply_task_updates-stale :
      (tu : TaskUpdater) (s : State c st q)
      → Ready s.storage
      → tu.pending_events ≢ []
      → tu.initial_version ≢ u64 (length (stream s.storage (key_of tu.task)))
      → apply_task_updates c st q tu s ≡ (
        err (
            wrap (
              version_mismatch tu.initial_version
                (u64 (length (stream s.storage (key_of tu.task)))))),
        s,
      )
  unfolding apply_task_updates
  apply_task_updates-stale tu s ready some_ stale =
      rw (when_pending_lem c st q tu.pending_events tu some_) (
        unfold write_updates in
        rw
          (append_stale tu.task.context_id tu.task.id tu.initial_version tu.pending_events s.storage
            ready stale)
          refl)
