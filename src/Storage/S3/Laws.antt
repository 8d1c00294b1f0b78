-- ===== src/Storage/S3/Laws.antt =====
-- The laws of the storage interface for the S3 backend (awsadp/s3_storage.go), over any object store
-- that does what is documented.
use atlasic.Prelude.{
  ℕ, ◌+◌, String, Bool, true, false, ◌≡◌, ◌≢◌, refl, ap, some, List, ◌++◌, ◌==◌, string_eq, pair_eq,
  pair_beq, Bool-cases, Option-cases, inl, inr, arith, if◌then◌else◌, u64, ℤ, length, length-append,
}
use atlasic.Prelude.Exec.{ok, err, version_mismatch}
use atlasic.A2a.{Task, StreamResponse}
use atlasic.Storage.{Lawful, CanSave, history_length_all}
use atlasic.Storage.ObjectStore.{
  Key, key_beq, key_eq, Object, task_object, events_object, index_object, ObjectStore, StoreLaws,
}
use atlasic.Storage.FileSystem.Laws.{nat_eq_self}
use atlasic.Storage.S3.{
  task_key, events_key, context_index_key, get_task, save_task, write_task, append, s3_storage,
}
use atlasic.Storage.S3.Keys.{
  task_key-beq, events_key-beq, events_key-ne-task_key, task_key-ne-events_key,
  index_key-ne-task_key, index_key-ne-events_key,
}
use atlasic.Storage.S3.Reading.{
  task_of, events_of, IsReady, snapshot, stream, get_task-missing, get_task-found, get_events,
  load-ready, configs, list_push_configs-ready,
}

if_apply {ℓ κ} :
    {A : Type ℓ} {B : Type κ} (f : A → B) (b : Bool) (x y : A)
    → f (if b then x else y) ≡ (if b then f x else f y)
if_apply f true x y = refl
if_apply f false x y = refl

module _ (o : ObjectStore) (p : Key) (laws : StoreLaws o) where
  open laws use {Works, object, get_found, get_missing, put_done, put_works, object-put}

  module _ (c t : String) (expected : ℕ) (es : List StreamResponse) (s : o.State)
      (ready : IsReady o p laws s) where
    abbrev current : ℕ
    current = u64 (length (stream o p laws s (c, t)))

    abbrev new_events : Object
    new_events = events_object (stream o p laws s (c, t) ++ es, u64 (current + length es))

    abbrev pub appended : o.State
    appended = (o.put_object (events_key p c t) new_events s).1

    -- What is under each key then.
    object-appended :
        (k : Key)
        → object appended k ≡ (if key_beq (events_key p c t) k then some new_events else object s k)
    object-appended k = object-put (events_key p c t) new_events s k ready.works

    pub append-current :
        expected ≡ current
        → append o p c t expected es s ≡ (ok (u64 (expected + length es)), appended)
    unfolding append
    append-current e =
        let (same, found) = get_events o p laws c t s ready in
        rw
          (
            found,
            same,
            e,
            nat_eq_self current,
            put_done (events_key p c t) new_events s ready.works,
          )
          refl

    pub append-stale :
        expected ≢ current
        → append o p c t expected es s ≡ (err (version_mismatch expected current), s)
    unfolding append
    append-stale ne =
        let (same, found) = get_events o p laws c t s ready in rw (found, same) (ground arith)

    pub stream-appended :
        (key : String × String)
        → stream o p laws appended key
          ≡ (if (c, t) == key then stream o p laws s (c, t) ++ es else stream o p laws s key)
    stream-appended (c', t') =
        rw (object-appended (events_key p c' t'), events_key-beq p c t c' t')
          (if_apply events_of (pair_beq (c, t) (c', t')) (some new_events)
            (object s (events_key p c' t')))

    pub snapshot-appended : (id : String) → snapshot o p laws appended id ≡ snapshot o p laws s id
    snapshot-appended id =
        rw (object-appended (task_key p id), events_key-ne-task_key p c t id) refl

    counted : u64 (current + length es) ≡ u64 (length (stream o p laws s (c, t) ++ es))
    counted = omega (arith, length-append (stream o p laws s (c, t)) es)

    pub appended-IsReady : IsReady o p laws appended
    appended-IsReady = record {
      works = put_works (events_key p c t) new_events s ready.works;
      tasks = λ id.
          rw (object-appended (task_key p id), events_key-ne-task_key p c t id) (ready.tasks id);
      events = λ c' t'. elim (Bool-cases (pair_beq (c, t) (c', t'))) [
        | inl same ↦
            rw (object-appended (events_key p c' t'), events_key-beq p c t c' t', same) counted
        | inr other ↦
            rw (object-appended (events_key p c' t'), events_key-beq p c t c' t', other)
              (ready.events c' t')
      ];
    }

  module _ (t : Task) (expected new : ℕ) (s : o.State) (ready : IsReady o p laws s) where
    abbrev task_put : o.State
    task_put = (o.put_object (task_key p t.id) (task_object (t, new)) s).1

    abbrev pub saved : o.State
    saved = (o.put_object (context_index_key p t.context_id t.id) (index_object t.id) task_put).1

    task_put-works : Works task_put
    task_put-works = put_works (task_key p t.id) (task_object (t, new)) s ready.works

    write_task_lem : write_task o p t new s ≡ (ok tt, saved)
    unfolding write_task
    write_task_lem =
        rw
          (
            put_done (task_key p t.id) (task_object (t, new)) s ready.works,
            put_done (context_index_key p t.context_id t.id) (index_object t.id) task_put
                task_put-works,
          )
          refl

    task-saved :
        (id : String)
        → object saved (task_key p id)
          ≡ (if t.id == id then some (task_object (t, new)) else object s (task_key p id))
    task-saved id =
        rw
          (
            object-put (context_index_key p t.context_id t.id) (index_object t.id) task_put
                (task_key p id) task_put-works,
            index_key-ne-task_key p t.context_id t.id id,
            object-put (task_key p t.id) (task_object (t, new)) s (task_key p id) ready.works,
            task_key-beq p t.id id,
          )
          refl

    events-saved : (c i : String) → object saved (events_key p c i) ≡ object s (events_key p c i)
    events-saved c i =
        rw
          (
            object-put (context_index_key p t.context_id t.id) (index_object t.id) task_put
                (events_key p c i) task_put-works,
            index_key-ne-events_key p t.context_id t.id c i,
            object-put (task_key p t.id) (task_object (t, new)) s (events_key p c i) ready.works,
            task_key-ne-events_key p t.id c i,
          )
          refl

    pub save_task-current :
        CanSave (snapshot o p laws s t.id) expected
        → save_task o p t expected new s ≡ (ok tt, saved)
    unfolding save_task
    save_task-current can = elim (Option-cases (snapshot o p laws s t.id)) [
      | inl e ↦
          rw (get_task-missing o p laws t.id history_length_all s ready e, write_task_lem) refl
      | inr ((t', v), e) ↦
          let same : expected ≡ v = rw e at can in
          rw
            (
              get_task-found o p laws t.id history_length_all s ready t' v e,
              same,
              nat_eq_self v,
              write_task_lem,
            )
            refl
    ]

    pub save_task-stale :
        (old : Task) (v : ℕ)
        → snapshot o p laws s t.id ≡ some (old, v)
        → expected ≢ v
        → save_task o p t expected new s ≡ (err (version_mismatch expected v), s)
    unfolding save_task
    save_task-stale old v e ne =
        rw (get_task-found o p laws t.id history_length_all s ready old v e) (ground arith)

    pub snapshot-saved :
        (id : String)
        → snapshot o p laws saved id
          ≡ (if t.id == id then some (t, new) else snapshot o p laws s id)
    snapshot-saved id =
        rw (task-saved id)
          (if_apply task_of (t.id == id) (some (task_object (t, new))) (object s (task_key p id)))

    pub stream-saved : (key : String × String) → stream o p laws saved key ≡ stream o p laws s key
    stream-saved (c, i) = rw (events-saved c i) refl

    pub saved-IsReady : IsReady o p laws saved
    saved-IsReady = record {
      works =
          put_works (context_index_key p t.context_id t.id) (index_object t.id) task_put
            task_put-works;
      tasks = λ id. elim (Bool-cases (t.id == id)) [
        | inl same ↦ rw (task-saved id, same) tt
        | inr other ↦ rw (task-saved id, other) (ready.tasks id)
      ];
      events = λ c i. rw (events-saved c i) (ready.events c i);
    }

  pub get_task-unchanged :
      (id : String) (h : ℤ) (s : o.State) → IsReady o p laws s → (get_task o p id h s).1 ≡ s
  get_task-unchanged id h s ready = elim (Option-cases (snapshot o p laws s id)) [
    | inl e ↦ rw (get_task-missing o p laws id h s ready e) refl
    | inr ((t, v), e) ↦ rw (get_task-found o p laws id h s ready t v e) refl
  ]

  -- An S3 backend whose store does what is documented meets the laws that the clients of any
  -- backend rely on.
  abbrev pub s3_laws : Lawful (s3_storage o p)
  s3_laws = record {
    Ready = IsReady o p laws;
    snapshot = snapshot o p laws;
    stream = stream o p laws;
    configs = configs o p laws;
    get_task_found = λ id h s t v ready ne e. get_task-found o p laws id h s ready t v e;
    get_task_missing = λ id h s ready e. get_task-missing o p laws id h s ready e;
    get_task_unchanged = get_task-unchanged;
    append_current =
        λ c t expected es s ready e. ap (λ r. r.0) (append-current c t expected es s ready e);
    append_stale = append-stale;
    append_ready = λ c t expected es s ready e.
        rw (append-current c t expected es s ready e) (appended-IsReady c t expected es s ready);
    stream-append = λ c t expected es s key ready e.
        rw (append-current c t expected es s ready e) (stream-appended c t expected es s ready key);
    snapshot-append = λ c t expected es s id ready e.
        rw (append-current c t expected es s ready e)
          (snapshot-appended c t expected es s ready id);
    save_task_current =
        λ t expected new s ready can. ap (λ r. r.0) (save_task-current t expected new s ready can);
    save_task_stale =
        λ t expected new s old v ready e ne. save_task-stale t expected new s ready old v e ne;
    save_task_ready = λ t expected new s ready can.
        rw (save_task-current t expected new s ready can) (saved-IsReady t expected new s ready);
    snapshot-save_task = λ t expected new s id ready can.
        rw (save_task-current t expected new s ready can)
          (snapshot-saved t expected new s ready id);
    stream-save_task = λ t expected new s key ready can.
        rw (save_task-current t expected new s ready can) (stream-saved t expected new s ready key);
    load_lem = load-ready o p laws;
    list_push_configs_lem = λ id s ready. list_push_configs-ready o p laws id s ready.works;
  }
