-- ===== src/Storage/S3.antt =====
-- The S3 backend (awsadp/s3_storage.go) over an object store.
--
-- The prefix of all keys is its segments, none for the empty prefix. An object of the wrong kind is
-- one that does not decode.
pub mod Keys
pub mod Reading
pub mod Laws
pub mod Contexts
pub mod Files
use atlasic.Prelude.{
  ℕ, zero, suc, ◌+◌, String, Bool, true, false, not, ◌&&◌, Option, none, some, List, [], ◌∷◌, ◌++◌,
  ◌==◌, nat_eq, ltb, string_eq, if◌then◌else◌, u64, ℤ, pos, negsuc, length, last_n,
}
use atlasic.Prelude.Texts.{concat, trim_suffix}
use atlasic.Prelude.Exec.{
  Exec, Result, ok, err, Error, pure, raise, wrapping, ◌>>=◌, ◌>>◌, wrap, io, no_such_key,
  task_not_found, context_not_found, push_config_not_found, version_mismatch,
}
use atlasic.A2a.{Message, Task, StreamResponse, TaskPushNotificationConfig}
use atlasic.Storage.{Storage, history_length_all}
use atlasic.Storage.ObjectStore.{
  Key, Object, task_object, events_object, config_object, index_object, ObjectStore,
}
use atlasic.Storage.FileSystem.{filter_events}

module _ (prefix : Key) where
  unfoldable pub task_key : String → Key
  task_key task_id = prefix ++ ("tasks" ∷ concat task_id ".json" ∷ [])

  unfoldable pub context_prefix : String → Key
  context_prefix context_id = prefix ++ ("contexts" ∷ context_id ∷ [])

  unfoldable pub context_index_key : String → String → Key
  context_index_key context_id task_id =
      prefix ++ ("contexts" ∷ context_id ∷ concat task_id ".txt" ∷ [])

  unfoldable pub events_key : String → String → Key
  events_key context_id task_id = prefix ++ ("events" ∷ context_id ∷ concat task_id ".json" ∷ [])

  unfoldable pub push_config_key : String → String → Key
  push_config_key task_id config_id =
      prefix ++ ("push-configs" ∷ task_id ∷ concat config_id ".json" ∷ [])

  unfoldable pub push_config_prefix : String → Key
  push_config_prefix task_id = prefix ++ ("push-configs" ∷ task_id ∷ [])

-- The file name two places after a segment, without its extension; nothing where there is none.
abbrev pub name_after : List String → String → String
name_after (a ∷ file ∷ rest) extension = trim_suffix file extension
name_after _ extension = ""

-- The loop over the segments stops at the first one of that name that has two after it.
unfoldable pub extract_after : String → String → Key → String
extract_after directory extension [] = ""
extract_after directory extension (part ∷ rest) =
    let later = extract_after directory extension rest in
    if part == directory && ltb 1 (length rest) then name_after rest extension else later

abbrev pub extract_task_id_from_context_key : Key → String
extract_task_id_from_context_key = extract_after "contexts" ".txt"

abbrev pub extract_config_id_from_key : Key → String
extract_config_id_from_key = extract_after "push-configs" ".json"

-- `strings.Contains(err.Error(), "NoSuchKey")`
abbrev pub is_no_such_key : Error → Bool
is_no_such_key no_such_key = true
is_no_such_key _ = false

abbrev pub reported_as {ℓ} : {A : Type ℓ} → Error → Result A → Result A
reported_as missing (ok a) = ok a
reported_as missing (err e) = if is_no_such_key e then err missing else err (wrap e)

-- The history that `GetTask` leaves: none at all for a length of 0.
unfoldable pub trim_history : ℤ → Task → Task
trim_history (pos zero) t = record t { history = [] }
trim_history (pos n) t =
    if ltb n (length t.history) then record t { history = last_n n t.history } else t
trim_history (negsuc n) t = t

abbrev pub decode_task : Result Object → Result (Task × ℕ)
decode_task (ok (task_object tv)) = ok tv
decode_task (ok x) = err (wrap io)
decode_task (err e) = err e

abbrev pub trimmed : ℤ → Result (Task × ℕ) → Result (Task × ℕ)
trimmed h (ok (t, v)) = ok (trim_history h t, v)
trimmed h (err e) = err e

-- What `Append` goes on from: an object that does not decode is taken for an empty stream.
abbrev pub existing_events : Result Object → Result (List StreamResponse × ℕ)
existing_events (ok (events_object found)) = ok found
existing_events (ok x) = ok ([], 0)
existing_events (err e) = if is_no_such_key e then ok ([], 0) else err (wrap e)

abbrev pub loaded_from : ℕ → ℤ → Result Object → Result (List StreamResponse × ℕ)
loaded_from start limit (ok (events_object (es, v))) = ok (filter_events start limit 0 [] es, v)
loaded_from start limit (ok x) = err (wrap io)
loaded_from start limit (err e) = if is_no_such_key e then ok ([], 0) else err (wrap e)

abbrev pub decode_config : Result Object → Result TaskPushNotificationConfig
decode_config (ok (config_object c)) = ok c
decode_config (ok x) = err (wrap io)
decode_config (err e) = err e

abbrev pub add_ok {ℓ} : {A : Type ℓ} → Result A → List A → List A
add_ok (ok a) xs = xs ++ (a ∷ [])
add_ok (err e) xs = xs

module _ (o : ObjectStore) (prefix : Key) where
  unfoldable pub get_task : String → ℤ → Exec o.State (Task × ℕ)
  unfolding trim_history
  get_task task_id h s =
      let (r, s') = o.get_object (task_key prefix task_id) s in
      (trimmed h (decode_task (reported_as task_not_found r)), s')

  -- The version check of `SaveTask`: a task that is not there passes whatever is expected.
  abbrev pub check_version : ℕ → Result (Task × ℕ) → Exec o.State (Unit {0})
  check_version expected (ok (t, current)) =
      if nat_eq expected current then pure tt else raise (version_mismatch expected current)
  check_version expected (err task_not_found) = pure tt
  check_version expected (err e) = raise (wrap e)

  -- The task first, and then its entry in the index of its context.
  unfoldable pub write_task : Task → ℕ → Exec o.State (Unit {0})
  write_task task version = do
    wrapping (o.put_object (task_key prefix task.id) (task_object (task, version)))
    wrapping
        (o.put_object (context_index_key prefix task.context_id task.id) (index_object task.id))
    pure tt

  unfoldable pub save_task : Task → ℕ → ℕ → Exec o.State (Unit {0})
  save_task task expected_version new_version s =
      let (r, s') = get_task task.id history_length_all s in
      (check_version expected_version r >> write_task task new_version) s'

  abbrev pub append_to :
      Key → ℕ → List StreamResponse → Result (List StreamResponse × ℕ) → Exec o.State ℕ
  append_to key expected events (err e) = raise e
  append_to key expected events (ok (existing, current)) =
      if nat_eq expected current
      then (wrapping
            (o.put_object key (events_object (existing ++ events, u64 (current + length events))))
          >> pure (u64 (current + length events)))
      else raise (version_mismatch expected current)

  unfoldable pub append : String → String → ℕ → List StreamResponse → Exec o.State ℕ
  append context_id task_id expected events s =
      let key = events_key prefix context_id task_id in
      let (r, s') = o.get_object key s in append_to key expected events (existing_events r) s'

  unfoldable pub load : String → String → ℕ → ℤ → Exec o.State (List StreamResponse × ℕ)
  unfolding filter_events
  load context_id task_id start limit s =
      let (r, s') = o.get_object (events_key prefix context_id task_id) s in
      (loaded_from start limit r, s')

  unfoldable pub save_push_config : TaskPushNotificationConfig → Exec o.State (Unit {0})
  save_push_config c =
      wrapping (o.put_object (push_config_key prefix c.task_id c.config.id) (config_object c))

  unfoldable pub get_push_config : String → String → Exec o.State TaskPushNotificationConfig
  get_push_config task_id config_id s =
      let (r, s') = o.get_object (push_config_key prefix task_id config_id) s in
      (decode_config (reported_as push_config_not_found r), s')

  -- The loop of `ListTaskPushNotificationConfig`: what cannot be read is left out.
  unfoldable pub read_configs :
      String
      → List Key
      → List TaskPushNotificationConfig
      → Exec o.State (List TaskPushNotificationConfig)
  unfolding extract_after
  read_configs task_id [] configs s = (ok configs, s)
  read_configs task_id (key ∷ keys) configs s =
      let config_id = extract_config_id_from_key key in
      let (r, s') = get_push_config task_id config_id s in
      let skipped = read_configs task_id keys configs s in
      let read = read_configs task_id keys (add_ok r configs) s' in
      if config_id == "" then skipped else read

  unfoldable pub list_push_configs : String → Exec o.State (List TaskPushNotificationConfig)
  unfolding read_configs
  list_push_configs task_id = do
    keys ← wrapping (o.list_objects (push_config_prefix prefix task_id))
    read_configs task_id keys []

  -- A config that is not there is deleted without an error.
  unfoldable pub delete_push_config : String → String → Exec o.State (Unit {0})
  delete_push_config task_id config_id =
      wrapping (o.delete_object (push_config_key prefix task_id config_id))

  -- The loop of `ListTasksByContext`.
  unfoldable pub read_tasks : ℤ → List Key → List (Task × ℕ) → Exec o.State (List (Task × ℕ))
  unfolding extract_after
  read_tasks h [] tasks s = (ok tasks, s)
  read_tasks h (key ∷ keys) tasks s =
      let task_id = extract_task_id_from_context_key key in
      let (r, s') = get_task task_id h s in
      let skipped = read_tasks h keys tasks s in
      let read = read_tasks h keys (add_ok r tasks) s' in if task_id == "" then skipped else read

  abbrev pub guard_some : List Key → Exec o.State (Unit {0})
  guard_some [] = raise context_not_found
  guard_some (key ∷ keys) = pure tt

  unfoldable pub list_tasks_by_context : String → ℤ → Exec o.State (List (Task × ℕ))
  unfolding read_tasks
  list_tasks_by_context context_id h = do
    keys ← wrapping (o.list_objects (context_prefix prefix context_id))
    guard_some keys
    read_tasks h keys []

  abbrev pub s3_storage : Storage
  s3_storage = record {
    State = o.State;
    get_task = get_task;
    save_task = save_task;
    append = append;
    load = load;
    save_push_config = save_push_config;
    get_push_config = get_push_config;
    list_push_configs = list_push_configs;
    delete_push_config = delete_push_config;
  }
