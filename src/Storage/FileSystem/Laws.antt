-- ===== src/Storage/FileSystem/Laws.antt =====
-- The laws of the storage interface for the file system backend (filesystem_storage.go).
use atlasic.Prelude.{
  ℕ, zero, suc, ◌+◌, String, ◌≡◌, ◌≢◌, refl, ap, Option, none, some, List, [], ◌++◌, arith, true,
  drop, ◌==◌, pair_eq, string_eq, u64, length, length-append, drop-nil, ℤ, pos, negsuc,
  Option-cases, Bool-cases, ◌-◌, inl, inr, if◌then◌else◌, nat_eq, ltb,
}
use atlasic.Prelude.Table.{lookup, insert, lookup-insert}
use atlasic.Prelude.Exec.{ok, err, task_not_found, version_mismatch}
use atlasic.A2a.{Task, StreamResponse}
use atlasic.Storage.{Lawful, CanSave, limit_task, limit_events}
use atlasic.Storage.FileSystem
use atlasic.Storage.FileSystem.{
  Disk, os_call, get_task_without_lock, trim_history, save_task, append, load, write_file,
  file_system, append_to, existing_or_empty, check_version, load_from, read_each, entries_of,
}
use atlasic.Storage.FileSystem.Loading.{filter_events_lem}
use atlasic.Storage.FileSystem.Ready.{IsReady, snapshot, stream, os_call-ready}
use atlasic.Storage.FileSystem.Listing.{configs, list_push_configs-ready}

trim_history_lem : (h : ℤ) (t : Task) → h ≢ pos 0 → trim_history h t ≡ limit_task h t
unfolding trim_history
trim_history_lem (pos zero) t ne = absurd (ne refl)
trim_history_lem (pos (suc n)) t ne = elim (Bool-cases (ltb (suc n) (length t.history))) [
  | inl longer ↦ rw longer refl
  | inr fits ↦ let all : length t.history - suc n ≡ 0 = ground arith in rw fits (rw all refl)
]
trim_history_lem (negsuc n) t ne = refl

module _ (id : String) (d : Disk) (ready : d.faults ≡ []) where
  read_task_missing : snapshot d id ≡ none → get_task_without_lock id d ≡ (err task_not_found, d)
  unfolding get_task_without_lock
  read_task_missing e = rw (os_call-ready d ready, e) refl

  read_task_found :
      (t : Task) (v : ℕ) → snapshot d id ≡ some (t, v) → get_task_without_lock id d ≡ (ok (t, v), d)
  unfolding get_task_without_lock
  read_task_found t v e = rw (os_call-ready d ready, e) refl

  pub get_task-missing :
      (h : ℤ) → snapshot d id ≡ none → FileSystem.get_task id h d ≡ (err task_not_found, d)
  unfolding FileSystem.get_task
  get_task-missing h e = rw (read_task_missing e) refl

  pub get_task-found :
      (h : ℤ) (t : Task) (v : ℕ)
      → h ≢ pos 0
      → snapshot d id ≡ some (t, v)
      → FileSystem.get_task id h d ≡ (ok (limit_task h t, v), d)
  unfolding FileSystem.get_task
  get_task-found h t v ne e = rw (read_task_found t v e, trim_history_lem h t ne) refl

pub get_task-unchanged :
    (id : String) (h : ℤ) (d : Disk) → IsReady d → (FileSystem.get_task id h d).1 ≡ d
unfolding FileSystem.get_task
get_task-unchanged id h d ready = elim (Option-cases (snapshot d id)) [
  | inl e ↦ rw (read_task_missing id d ready.no_faults e) refl
  | inr ((t, v), e) ↦ rw (read_task_found id d ready.no_faults t v e) refl
]

write_file-ready :
    (change : Disk → Disk) (d : Disk) → d.faults ≡ [] → write_file change d ≡ (ok tt, change d)
unfolding write_file
write_file-ready change d h = rw (os_call-ready d h, os_call-ready d h) refl

pub nat_eq_self : (n : ℕ) → nat_eq n n ≡ true
nat_eq_self n = ground arith

pub existing_events :
    (d : Disk) (key : String × String)
    → IsReady d
    → existing_or_empty (ok tt) (lookup key d.events) ≡ (stream d key, u64 (length (stream d key)))
existing_events d key ready = elim (Option-cases (lookup key d.events)) [
  | inl e ↦ rw e refl
  | inr ((es, v), e) ↦ rw (e, ready.versions key es v e) refl
]

module _ (c t : String) (expected : ℕ) (es : List StreamResponse) (d : Disk)
    (ready : IsReady d) where
  abbrev pub appended : Disk
  appended = record d {
    events =
        insert (c, t) (stream d (c, t) ++ es, u64 (u64 (length (stream d (c, t))) + length es))
          d.events;
  }

  append_lem :
      append c t expected es d
      ≡ append_to (c, t) expected es (stream d (c, t), u64 (length (stream d (c, t)))) d
  unfolding append
  append_lem = rw (os_call-ready d ready.no_faults, existing_events d (c, t) ready) refl

  pub append-current :
      expected ≡ u64 (length (stream d (c, t)))
      → append c t expected es d ≡ (ok (u64 (expected + length es)), appended)
  append-current e = rw append_lem (
      rw (e, nat_eq_self (u64 (length (stream d (c, t)))), write_file-ready _ d ready.no_faults)
        refl)

  pub append-stale :
      expected ≢ u64 (length (stream d (c, t)))
      → append c t expected es d
        ≡ (err (version_mismatch expected (u64 (length (stream d (c, t))))), d)
  append-stale e = rw append_lem (ground arith)

  version_of_appended :
      (key : String × String) (xs : List StreamResponse) (v : ℕ)
      → ◌≡◌ {A = Option (List StreamResponse × ℕ)}
          (some (stream d (c, t) ++ es, u64 (u64 (length (stream d (c, t))) + length es)))
          (some (xs, v))
      → v ≡ u64 (length xs)
  version_of_appended key xs v e = ground (arith, length-append (stream d (c, t)) es)

  pub appended-IsReady : IsReady appended
  appended-IsReady = record {
    no_faults = ready.no_faults;
    versions = λ key xs v e. elim (Bool-cases ((c, t) == key)) [
      | inl same ↦
          version_of_appended key xs v (rw (lookup-insert (c, t) key _ d.events, same) at e)
      | inr other ↦ ready.versions key xs v (rw (lookup-insert (c, t) key _ d.events, other) at e)
    ];
  }

  pub stream-appended :
      (key : String × String)
      → stream appended key ≡ (if (c, t) == key then stream d (c, t) ++ es else stream d key)
  stream-appended key =
      rw (lookup-insert (c, t) key _ d.events)
        (elim (Bool-cases ((c, t) == key)) [ inl same ↦ rw same refl | inr other ↦ rw other refl ])

module _ (t : Task) (expected new : ℕ) (d : Disk) (no_faults : d.faults ≡ []) where
  abbrev pub saved : Disk
  saved = record d { tasks = insert t.id (t, new) d.tasks }

  pub save_task-current :
      CanSave (snapshot d t.id) expected → save_task t expected new d ≡ (ok tt, saved)
  unfolding save_task
  save_task-current can = elim (Option-cases (snapshot d t.id)) [
    | inl e ↦ rw (read_task_missing t.id d no_faults e, write_file-ready _ d no_faults) refl
    | inr ((t', v), e) ↦
        let same : expected ≡ v = rw e at can in
        rw
          (
            read_task_found t.id d no_faults t' v e,
            same,
            nat_eq_self v,
            write_file-ready _ d no_faults,
          )
          refl
  ]

  pub save_task-stale :
      (old : Task) (v : ℕ)
      → snapshot d t.id ≡ some (old, v)
      → expected ≢ v
      → save_task t expected new d ≡ (err (version_mismatch expected v), d)
  unfolding save_task
  save_task-stale old v e ne = rw (read_task_found t.id d no_faults old v e) (ground arith)

pub limit_events-nil : (limit : ℤ) → limit_events limit [] ≡ []
limit_events-nil (pos zero) = refl
limit_events-nil (pos (suc n)) = refl
limit_events-nil (negsuc n) = refl

pub load-ready :
    (c t : String) (start : ℕ) (limit : ℤ) (d : Disk)
    → IsReady d
    → load c t start limit d
      ≡ (ok (limit_events limit (drop start (stream d (c, t))), u64 (length (stream d (c, t)))), d)
unfolding load
load-ready c t start limit d ready = elim (Option-cases (lookup (c, t) d.events)) [
  | inl e ↦
      rw (os_call-ready d ready.no_faults, e)
        (rw (drop-nil start) (rw (limit_events-nil limit) refl))
  | inr ((es, v), e) ↦
      rw
        (
          os_call-ready d ready.no_faults,
          e,
          ready.versions (c, t) es v e,
          filter_events_lem start limit es,
        )
        refl
]

-- A disk that works, whose event files count their events, meets the laws that the clients of any
-- backend rely on.
abbrev pub file_system_laws : Lawful file_system
file_system_laws = record {
  Ready = IsReady;
  snapshot = snapshot;
  stream = stream;
  configs = configs;
  get_task_found = λ id h d t v ready ne e. get_task-found id d ready.no_faults h t v ne e;
  get_task_missing = λ id h d ready e. get_task-missing id d ready.no_faults h e;
  get_task_unchanged = get_task-unchanged;
  append_current =
      λ c t expected es d ready e. ap (λ r. r.0) (append-current c t expected es d ready e);
  append_stale = append-stale;
  append_ready = λ c t expected es d ready e.
      rw (append-current c t expected es d ready e) (appended-IsReady c t expected es d ready);
  stream-append = λ c t expected es d key ready e.
      rw (append-current c t expected es d ready e) (stream-appended c t expected es d ready key);
  snapshot-append =
      λ c t expected es d id ready e. rw (append-current c t expected es d ready e) refl;
  save_task_current = λ t expected new d ready can.
      ap (λ r. r.0) (save_task-current t expected new d ready.no_faults can);
  save_task_stale = λ t expected new d old v ready e ne.
      save_task-stale t expected new d ready.no_faults old v e ne;
  save_task_ready = λ t expected new d ready can.
      rw (save_task-current t expected new d ready.no_faults can)
        (record { no_faults = ready.no_faults; versions = ready.versions });
  snapshot-save_task = λ t expected new d id ready can.
      rw (save_task-current t expected new d ready.no_faults can)
        (lookup-insert t.id id (t, new) d.tasks);
  stream-save_task = λ t expected new d key ready can.
      rw (save_task-current t expected new d ready.no_faults can) refl;
  load_lem = load-ready;
  list_push_configs_lem = λ id d ready. list_push_configs-ready id d ready.no_faults;
}
