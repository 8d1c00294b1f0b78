-- ===== src/Storage.antt =====
-- The storage interface (storage.go): the operations that a backend has, and what the clients of
-- any backend rely on. The backends are the modules below.
pub mod FileSystem
pub mod Abstract
pub mod ObjectStore
pub mod S3
use atlasic.Prelude.{
  ℕ, zero, suc, ◌+◌, String, ◌≡◌, ◌≢◌, Option, none, some, List, ◌++◌, ◌==◌, pair_eq, string_eq,
  if◌then◌else◌, u64, ℤ, pos, negsuc, length, drop, take, last_n,
}
use atlasic.Prelude.Exec.{Exec, ok, err, task_not_found, version_mismatch}
use atlasic.A2a.{Message, Task, StreamResponse, TaskPushNotificationConfig}

-- `HistoryLengthAll`
abbrev pub history_length_all : ℤ
history_length_all = negsuc 0

-- The `Storage` interface, less the virtual file systems and `ListTasksByContext`, which no client of
-- the interface calls.
pub record Storage : Type 1 where
  pub State : Type 0
  pub get_task : String → ℤ → Exec State (Task × ℕ)
  pub save_task : Task → ℕ → ℕ → Exec State (Unit {0})
  pub append : String → String → ℕ → List StreamResponse → Exec State ℕ
  pub load : String → String → ℕ → ℤ → Exec State (List StreamResponse × ℕ)
  pub save_push_config : TaskPushNotificationConfig → Exec State (Unit {0})
  pub get_push_config : String → String → Exec State TaskPushNotificationConfig
  pub list_push_configs : String → Exec State (List TaskPushNotificationConfig)
  pub delete_push_config : String → String → Exec State (Unit {0})

-- The last `n` messages, or all of them where the length is negative.
abbrev pub limit_history : ℤ → List Message → List Message
limit_history (pos n) ms = last_n n ms
limit_history (negsuc n) ms = ms

abbrev pub limit_task : ℤ → Task → Task
limit_task h t = record t { history = limit_history h t.history }

-- The first `n` events, or all of them where the limit is not positive.
abbrev pub limit_events : ℤ → List StreamResponse → List StreamResponse
limit_events (pos zero) es = es
limit_events (pos (suc n)) es = take (suc n) es
limit_events (negsuc n) es = es

-- A snapshot that is not there, or is there at the expected version.
abbrev pub CanSave : Option (Task × ℕ) → ℕ → Type 0
CanSave none expected = Unit
CanSave (some (t, v)) expected = expected ≡ v

-- What the clients rely on: a state in which no call fails for a reason of the backend's own
-- (`Ready`), the snapshot of a task, the event stream of a context and a task, the push configs of
-- a task, and what each operation does to these.
pub record Lawful (st : Storage) : Type 1 where
  pub Ready : st.State → Type 0
  pub snapshot : st.State → String → Option (Task × ℕ)
  pub stream : st.State → String × String → List StreamResponse
  pub configs : st.State → String → List TaskPushNotificationConfig
  pub get_task_found :
      (id : String) (h : ℤ) (s : st.State) (t : Task) (v : ℕ)
      → Ready s
      → h ≢ pos 0
      → snapshot s id ≡ some (t, v)
      → st.get_task id h s ≡ (ok (limit_task h t, v), s)
  pub get_task_missing :
      (id : String) (h : ℤ) (s : st.State)
      → Ready s
      → snapshot s id ≡ none
      → st.get_task id h s ≡ (err task_not_found, s)
  pub get_task_unchanged :
      (id : String) (h : ℤ) (s : st.State) → Ready s → (st.get_task id h s).1 ≡ s
  pub append_current :
      (c t : String) (expected : ℕ) (es : List StreamResponse) (s : st.State)
      → Ready s
      → expected ≡ u64 (length (stream s (c, t)))
      → (st.append c t expected es s).0 ≡ ok (u64 (expected + length es))
  pub append_stale :
      (c t : String) (expected : ℕ) (es : List StreamResponse) (s : st.State)
      → Ready s
      → expected ≢ u64 (length (stream s (c, t)))
      → st.append c t expected es s
        ≡ (err (version_mismatch expected (u64 (length (stream s (c, t))))), s)
  pub append_ready :
      (c t : String) (expected : ℕ) (es : List StreamResponse) (s : st.State)
      → Ready s
      → expected ≡ u64 (length (stream s (c, t)))
      → Ready (st.append c t expected es s).1
  pub stream-append :
      (c t : String) (expected : ℕ) (es : List StreamResponse) (s : st.State)
      (key : String × String)
      → Ready s
      → expected ≡ u64 (length (stream s (c, t)))
      → stream (st.append c t expected es s).1 key
        ≡ (if (c, t) == key then stream s (c, t) ++ es else stream s key)
  pub snapshot-append :
      (c t : String) (expected : ℕ) (es : List StreamResponse) (s : st.State) (id : String)
      → Ready s
      → expected ≡ u64 (length (stream s (c, t)))
      → snapshot (st.append c t expected es s).1 id ≡ snapshot s id
  pub save_task_current :
      (t : Task) (expected new : ℕ) (s : st.State)
      → Ready s
      → CanSave (snapshot s t.id) expected
      → (st.save_task t expected new s).0 ≡ ok tt
  pub save_task_stale :
      (t : Task) (expected new : ℕ) (s : st.State) (old : Task) (v : ℕ)
      → Ready s
      → snapshot s t.id ≡ some (old, v)
      → expected ≢ v
      → st.save_task t expected new s ≡ (err (version_mismatch expected v), s)
  pub save_task_ready :
      (t : Task) (expected new : ℕ) (s : st.State)
      → Ready s
      → CanSave (snapshot s t.id) expected
      → Ready (st.save_task t expected new s).1
  pub snapshot-save_task :
      (t : Task) (expected new : ℕ) (s : st.State) (id : String)
      → Ready s
      → CanSave (snapshot s t.id) expected
      → snapshot (st.save_task t expected new s).1 id
        ≡ (if t.id == id then some (t, new) else snapshot s id)
  pub stream-save_task :
      (t : Task) (expected new : ℕ) (s : st.State) (key : String × String)
      → Ready s
      → CanSave (snapshot s t.id) expected
      → stream (st.save_task t expected new s).1 key ≡ stream s key
  pub load_lem :
      (c t : String) (start : ℕ) (limit : ℤ) (s : st.State)
      → Ready s
      → st.load c t start limit s ≡ (
        ok (limit_events limit (drop start (stream s (c, t))), u64 (length (stream s (c, t)))),
        s,
      )
  pub list_push_configs_lem :
      (id : String) (s : st.State) → Ready s → st.list_push_configs id s ≡ (ok (configs s id), s)
