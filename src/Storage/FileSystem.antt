-- ===== src/Storage/FileSystem.antt =====
-- The file system backend (filesystem_storage.go).
--
-- A directory of JSON files is a table from the ids in the path to the decoded value, so the ids
-- are taken to be plain names, and encoding followed by decoding to give the value back. Each call
-- of package os takes one entry of `faults`: `true` is a call that fails with an error other than
-- "not exist" and changes nothing. An empty list is a disk that works.
pub mod Loading
pub mod Ready
pub mod Listing
pub mod Laws
pub mod Versions
pub mod Contexts
pub mod PushConfigs
use atlasic.Prelude.{
  ℕ, zero, suc, ◌+◌, String, Bool, true, false, ◌&&◌, Option, none, some, List, [], ◌∷◌, ◌++◌, ◌==◌,
  nat_eq, leb, ltb, pair_eq, string_eq, if◌then◌else◌, u64, ℤ, pos, negsuc, length, last_n,
}
use atlasic.Prelude.Table.{Table, lookup, insert, erase}
use atlasic.Prelude.Exec.{
  Exec, Result, ok, err, Error, pure, raise, wrapping, ◌>>=◌, ◌>>◌, wrap, io, task_not_found,
  context_not_found, push_config_not_found, version_mismatch,
}
use atlasic.A2a.{Message, Task, StreamResponse, TaskPushNotificationConfig}
use atlasic.Storage.{Storage}

pub record Disk : Type 0 where
  pub tasks : Table String (Task × ℕ)
  pub events : Table (String × String) (List StreamResponse × ℕ)
  pub push_configs : Table (String × String) TaskPushNotificationConfig
  pub contexts : Table String (List String)
  pub faults : List Bool

-- `NewFileSystemStorage`, after the base directory has been made.
abbrev pub new_file_system_storage : Disk
new_file_system_storage = record {
  tasks = [];
  events = [];
  push_configs = [];
  contexts = [];
  faults = [];
}

abbrev pub os_result : Bool → Result (Unit {0})
os_result true = err io
os_result false = ok tt

abbrev pub os_call_with : List Bool → Exec Disk (Unit {0})
os_call_with [] s = (ok tt, s)
os_call_with (b ∷ bs) s = (os_result b, record s { faults = bs })

-- One call of package os.
unfoldable pub os_call : Exec Disk (Unit {0})
os_call s = os_call_with s.faults s

abbrev pub found_or {ℓ} : {A : Type ℓ} → Option A → Error → Exec Disk A
found_or none e = raise e
found_or (some a) e = pure a

-- `getTaskWithoutLock`
unfoldable pub get_task_without_lock : String → Exec Disk (Task × ℕ)
unfolding os_call
get_task_without_lock task_id = do
  wrapping os_call
  λ s. found_or (lookup task_id s.tasks) task_not_found s

-- `if historyLength > 0 && len(task.History) > historyLength { ... }`
unfoldable pub trim_history : ℤ → Task → Task
trim_history (pos zero) t = t
trim_history (pos n) t =
    if ltb n (length t.history) then record t { history = last_n n t.history } else t
trim_history (negsuc n) t = t

unfoldable pub get_task : String → ℤ → Exec Disk (Task × ℕ)
unfolding get_task_without_lock trim_history
get_task task_id history_length = do
  (task, version) ← get_task_without_lock task_id
  pure (trim_history history_length task, version)

-- The version check of `SaveTask`: a task that is not there passes whatever is expected.
abbrev pub check_version : ℕ → Result (Task × ℕ) → Exec Disk (Unit {0})
check_version expected (ok (t, current)) =
    if nat_eq expected current then pure tt else raise (version_mismatch expected current)
check_version expected (err task_not_found) = pure tt
check_version expected (err e) = raise (wrap e)

-- `os.MkdirAll` and `os.WriteFile`
unfoldable pub write_file : (Disk → Disk) → Exec Disk (Unit {0})
unfolding os_call
write_file change = do wrapping os_call; wrapping os_call; λ s. (ok tt, change s)

unfoldable pub save_task : Task → ℕ → ℕ → Exec Disk (Unit {0})
unfolding get_task_without_lock write_file
save_task task expected_version new_version s =
    let (r, s') = get_task_without_lock task.id s in
    (check_version expected_version r
        >> write_file (λ d. record d { tasks = insert task.id (task, new_version) d.tasks }))
      s'

-- The events that `Append` goes on from: none, at version 0, if the file cannot be read for
-- whatever reason.
abbrev pub existing_or_empty :
    Result (Unit {0}) → Option (List StreamResponse × ℕ) → List StreamResponse × ℕ
existing_or_empty (ok u) (some found) = found
existing_or_empty (ok u) none = ([], 0)
existing_or_empty (err e) o = ([], 0)

abbrev pub append_to :
    String × String → ℕ → List StreamResponse → List StreamResponse × ℕ → Exec Disk ℕ
append_to key expected events (existing, current) =
    if nat_eq expected current
    then (write_file (λ d. record d {
      events = insert key (existing ++ events, u64 (current + length events)) d.events;
    })
        >> pure (u64 (current + length events)))
    else raise (version_mismatch expected current)

unfoldable pub append : String → String → ℕ → List StreamResponse → Exec Disk ℕ
unfolding os_call write_file
append context_id task_id expected events s =
    let (r, s') = os_call s in
    append_to (context_id, task_id) expected events
      (existing_or_empty r (lookup (context_id, task_id) s'.events)) s'

abbrev pub is_full : ℤ → ℕ → Bool
is_full (pos n) k = ltb 0 n && leb n k
is_full (negsuc n) k = false

-- The loop of `Load`: `i` is the index of the first event of the list, and `filtered` is what has
-- been collected.
unfoldable pub filter_events :
    ℕ → ℤ → ℕ → List StreamResponse → List StreamResponse → List StreamResponse
filter_events start limit i filtered [] = filtered
filter_events start limit i filtered (event ∷ events) =
    let filtered' = filtered ++ event ∷ [] in
    let skip = filter_events start limit (suc i) filtered events in
    let collect = filter_events start limit (suc i) filtered' events in
    if leb start i then if is_full limit (length filtered') then filtered' else collect else skip

abbrev pub load_from : ℕ → ℤ → Option (List StreamResponse × ℕ) → List StreamResponse × ℕ
load_from start limit none = ([], 0)
load_from start limit (some (events, version)) = (filter_events start limit 0 [] events, version)

unfoldable pub load : String → String → ℕ → ℤ → Exec Disk (List StreamResponse × ℕ)
unfolding os_call filter_events
load context_id task_id start limit = do
  wrapping os_call
  λ s. (ok (load_from start limit (lookup (context_id, task_id) s.events)), s)

unfoldable pub save_push_config : TaskPushNotificationConfig → Exec Disk (Unit {0})
unfolding write_file
save_push_config c =
    write_file (λ d. record d { push_configs = insert (c.task_id, c.config.id) c d.push_configs })

unfoldable pub get_push_config : String → String → Exec Disk TaskPushNotificationConfig
unfolding os_call
get_push_config task_id config_id = do
  wrapping os_call
  λ s. found_or (lookup (task_id, config_id) s.push_configs) push_config_not_found s

-- The entries of a task's directory; the order is the table's, where os.ReadDir sorts by name.
unfoldable pub entries_of :
    String → Table (String × String) TaskPushNotificationConfig → List String
entries_of task_id [] = []
entries_of task_id (((t, c), _) ∷ rest) =
    let others = entries_of task_id rest in if t == task_id then c ∷ others else others

abbrev pub add_found :
    Result TaskPushNotificationConfig
    → List TaskPushNotificationConfig
    → List TaskPushNotificationConfig
add_found (ok c) cs = cs ++ c ∷ []
add_found (err e) cs = cs

-- The loop of `ListTaskPushNotificationConfig`: a file that cannot be read is left out.
unfoldable pub read_each :
    String
    → List String
    → List TaskPushNotificationConfig
    → Exec Disk (List TaskPushNotificationConfig)
unfolding get_push_config
read_each task_id [] configs s = (ok configs, s)
read_each task_id (c ∷ cs) configs s =
    let (r, s') = get_push_config task_id c s in read_each task_id cs (add_found r configs) s'

unfoldable pub list_push_configs : String → Exec Disk (List TaskPushNotificationConfig)
unfolding os_call entries_of read_each
list_push_configs task_id = do
  wrapping os_call
  λ s. read_each task_id (entries_of task_id s.push_configs) [] s

unfoldable pub delete_push_config : String → String → Exec Disk (Unit {0})
unfolding os_call
delete_push_config task_id config_id = do
  wrapping os_call
  (λ s. found_or (lookup (task_id, config_id) s.push_configs) push_config_not_found s)
  λ s. (ok tt, record s { push_configs = erase (task_id, config_id) s.push_configs })

abbrev pub add_task : ℤ → Result (Task × ℕ) → List (Task × ℕ) → List (Task × ℕ)
add_task h (ok (t, v)) ts = ts ++ (trim_history h t, v) ∷ []
add_task h (err e) ts = ts

-- The loop of `ListTasksByContext`, over the names in the context's directory.
unfoldable pub read_tasks : ℤ → List String → List (Task × ℕ) → Exec Disk (List (Task × ℕ))
unfolding get_task_without_lock trim_history
read_tasks h [] tasks s = (ok tasks, s)
read_tasks h (id ∷ ids) tasks s =
    let (r, s') = get_task_without_lock id s in read_tasks h ids (add_task h r tasks) s'

-- `os.Stat`, of which only a "not exist" is looked at: any other failure is left to `os.ReadDir`.
abbrev pub is_missing : Result (Unit {0}) → Option (List String) → Bool
is_missing (ok u) none = true
is_missing _ _ = false

-- The directory is `contexts/<contextID>`.
unfoldable pub list_tasks_by_context : String → ℤ → Exec Disk (List (Task × ℕ))
unfolding os_call read_tasks
list_tasks_by_context context_id history_length s =
    let (stat, s') = os_call s in
    if is_missing stat (lookup context_id s'.contexts)
    then (err context_not_found, s')
    else (do
      wrapping os_call
      ids ← λ d. found_or (lookup context_id d.contexts) (wrap io) d
      read_tasks history_length ids [])
        s'

abbrev pub file_system : Storage
file_system = record {
  State = Disk;
  get_task = get_task;
  save_task = save_task;
  append = append;
  load = load;
  save_push_config = save_push_config;
  get_push_config = get_push_config;
  list_push_configs = list_push_configs;
  delete_push_config = delete_push_config;
}
