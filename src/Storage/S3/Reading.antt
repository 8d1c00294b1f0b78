-- ===== src/Storage/S3/Reading.antt =====
-- When an S3 backend is ready, what it then holds, and its reads (awsadp/s3_storage.go).
use atlasic.Prelude.{
  ℕ, zero, suc, ◌-◌, String, ◌≡◌, refl, Option, none, some, List, [], ◌∷◌, ◌==◌, string_eq,
  Bool-cases, Option-cases, inl, inr, arith, u64, ℤ, pos, negsuc, length, drop, drop-nil, drop-all,
  last_n, ltb,
}
use atlasic.Prelude.Exec.{Result, ok, err, task_not_found}
use atlasic.A2a.{Message, Task, StreamResponse, TaskPushNotificationConfig}
use atlasic.Storage.{limit_task, limit_events}
use atlasic.Storage.ObjectStore.{Key, Object, task_object, events_object, ObjectStore, StoreLaws}
use atlasic.Storage.FileSystem.Loading.{filter_events_lem}
use atlasic.Storage.FileSystem.Laws.{limit_events-nil}
use atlasic.Storage.S3.{
  task_key, events_key, push_config_key, push_config_prefix, trim_history, existing_events,
  get_task, load, get_push_config, read_configs, list_push_configs, extract_config_id_from_key,
  add_ok,
}

-- An object where a task may be, and one where a stream may be.
abbrev pub MayBeTask : Option Object → Type 0
MayBeTask none = Unit
MayBeTask (some (task_object tv)) = Unit
MayBeTask (some _) = ⊥

abbrev pub MayBeEvents : Option Object → Type 0
MayBeEvents none = Unit
MayBeEvents (some (events_object (es, v))) = v ≡ u64 (length es)
MayBeEvents (some _) = ⊥

abbrev pub task_of : Option Object → Option (Task × ℕ)
task_of (some (task_object tv)) = some tv
task_of _ = none

abbrev pub events_of : Option Object → List StreamResponse
events_of (some (events_object (es, v))) = es
events_of _ = []

last_n-zero : (ms : List Message) → last_n 0 ms ≡ []
last_n-zero ms = drop-all (length ms - 0) ms (omega arith)

trim_history_lem : (h : ℤ) (t : Task) → trim_history h t ≡ limit_task h t
unfolding trim_history
trim_history_lem (pos zero) t = rw (last_n-zero t.history) refl
trim_history_lem (pos (suc n)) t = elim (Bool-cases (ltb (suc n) (length t.history))) [
  | inl longer ↦ rw longer refl
  | inr fits ↦ let all : length t.history - suc n ≡ 0 = ground arith in rw fits (rw all refl)
]
trim_history_lem (negsuc n) t = refl

module _ (o : ObjectStore) (p : Key) (laws : StoreLaws o) where
  open laws use {Works, object, keys, get_found, get_missing, list_done}

  -- The store works, a task is where its key says, and an event object counts its events.
  pub record IsReady (s : o.State) : Type 0 where
    pub works : Works s
    pub tasks : (id : String) → MayBeTask (object s (task_key p id))
    pub events : (c t : String) → MayBeEvents (object s (events_key p c t))

  abbrev pub snapshot : o.State → String → Option (Task × ℕ)
  snapshot s id = task_of (object s (task_key p id))

  abbrev pub stream : o.State → String × String → List StreamResponse
  stream s (c, t) = events_of (object s (events_key p c t))

  module _ (id : String) (h : ℤ) (s : o.State) (ready : IsReady s) where
    pub get_task-missing : snapshot s id ≡ none → get_task o p id h s ≡ (err task_not_found, s)
    unfolding get_task
    get_task-missing e = elim (Option-cases (object s (task_key p id))) [
      | inl missing ↦ rw (get_missing (task_key p id) s ready.works missing) refl
      | inr (task_object tv, found) ↦ let e' : some tv ≡ none = rw found at e in cc
      | inr (x, found) ↦ absurd (rw found at (ready.tasks id))
    ]

    pub get_task-found :
        (t : Task) (v : ℕ)
        → snapshot s id ≡ some (t, v)
        → get_task o p id h s ≡ (ok (limit_task h t, v), s)
    unfolding get_task
    get_task-found t v e = elim (Option-cases (object s (task_key p id))) [
      | inl missing ↦
          let e' : ◌≡◌ {A = Option (Task × ℕ)} none (some (t, v)) = rw missing at e in cc
      | inr (task_object (t', v'), found) ↦
          let e' : ◌≡◌ {A = Option (Task × ℕ)} (some (t', v')) (some (t, v)) = rw found at e in
          rw (get_found (task_key p id) s _ ready.works found, trim_history_lem h t') (cc e')
      | inr (x, found) ↦ absurd (rw found at (ready.tasks id))
    ]

  -- What `Append` and `Load` find.
  pub get_events :
      (c t : String) (s : o.State)
      → IsReady s
      → (o.get_object (events_key p c t) s).1 ≡ s
        × (existing_events (o.get_object (events_key p c t) s).0
            ≡ ok (stream s (c, t), u64 (length (stream s (c, t)))))
  get_events c t s ready = elim (Option-cases (object s (events_key p c t))) [
    | inl missing ↦ rw (get_missing (events_key p c t) s ready.works missing, missing) (refl, refl)
    | inr (events_object (es, v), found) ↦
        let counted : v ≡ u64 (length es) = rw found at (ready.events c t) in
        rw (get_found (events_key p c t) s _ ready.works found, found) (refl, rw counted refl)
    | inr (x, found) ↦ absurd (rw found at (ready.events c t))
  ]

  pub load-ready :
      (c t : String) (start : ℕ) (limit : ℤ) (s : o.State)
      → IsReady s
      → load o p c t start limit s ≡ (
        ok (limit_events limit (drop start (stream s (c, t))), u64 (length (stream s (c, t)))),
        s,
      )
  unfolding load
  load-ready c t start limit s ready = elim (Option-cases (object s (events_key p c t))) [
    | inl missing ↦
        rw
          (
            get_missing (events_key p c t) s ready.works missing,
            missing,
            drop-nil start,
            limit_events-nil limit,
          )
          refl
    | inr (events_object (es, v), found) ↦
        let counted : v ≡ u64 (length es) = rw found at (ready.events c t) in
        rw
          (
            get_found (events_key p c t) s _ ready.works found,
            found,
            filter_events_lem start limit es,
            counted,
          )
          refl
    | inr (x, found) ↦ absurd (rw found at (ready.events c t))
  ]

  get_config_unchanged :
      (task_id config_id : String) (s : o.State)
      → Works s
      → (get_push_config o p task_id config_id s).1 ≡ s
  unfolding get_push_config
  get_config_unchanged task_id config_id s works =
      elim (Option-cases (object s (push_config_key p task_id config_id))) [
        | inl missing ↦ rw (get_missing (push_config_key p task_id config_id) s works missing) refl
        | inr (x, found) ↦ rw (get_found (push_config_key p task_id config_id) s x works found) refl
      ]

  read_configs-works :
      (task_id : String) (ks : List Key) (cs : List TaskPushNotificationConfig) (s : o.State)
      → Works s
      → (found : List TaskPushNotificationConfig) × (read_configs o p task_id ks cs s
          ≡ (ok found, s))
  unfolding read_configs
  read_configs-works task_id [] cs s works = (cs, refl)
  read_configs-works task_id (k ∷ ks) cs s works =
      elim (Bool-cases (extract_config_id_from_key k == "")) [
        | inl empty ↦ rw empty (read_configs-works task_id ks cs s works)
        | inr named ↦
            rw (named, get_config_unchanged task_id (extract_config_id_from_key k) s works)
              (read_configs-works task_id ks
                (add_ok (get_push_config o p task_id (extract_config_id_from_key k) s).0 cs) s
                works)
      ]

  abbrev collected : Result (List TaskPushNotificationConfig) → List TaskPushNotificationConfig
  collected (ok cs) = cs
  collected (err e) = []

  abbrev pub configs : o.State → String → List TaskPushNotificationConfig
  configs s id = collected (list_push_configs o p id s).0

  pub list_push_configs-ready :
      (id : String) (s : o.State) → Works s → list_push_configs o p id s ≡ (ok (configs s id), s)
  unfolding list_push_configs
  list_push_configs-ready id s works =
      let (found, e) = read_configs-works id (keys s (push_config_prefix p id)) [] s works in
      rw (list_done (push_config_prefix p id) s works, e) refl
