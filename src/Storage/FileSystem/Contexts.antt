-- ===== src/Storage/FileSystem/Contexts.antt =====
-- `FileSystemStorage.ListTasksByContext` (filesystem_storage.go) on the states that the backend's
-- operations reach.
use atlasic.Prelude.{
  ℕ, String, Bool, ◌≡◌, refl, ◌∙◌, some, Bool-cases, inl, inr, Option, none, List, [], ◌∷◌, ℤ,
  pair_eq, string_eq, nat_eq,
}
use atlasic.Prelude.Exec.{
  Exec, Result, Error, ok, err, context_not_found, task_not_found, push_config_not_found, continue,
  wrapping, ◌>>=◌,
}
use atlasic.A2a.{Task, StreamResponse, TaskPushNotificationConfig}
use atlasic.Prelude.Table.{lookup}
use atlasic.Storage.FileSystem
use atlasic.Storage.FileSystem.{
  Disk, new_file_system_storage, os_call, os_call_with, list_tasks_by_context, found_or,
  check_version, append_to, existing_or_empty,
}
use atlasic.Storage.FileSystem.Ready.{os_call-ready}

-- One call that changes the disk, after the faults it will meet have been decided.
pub data Step : Disk → Disk → Type 0 where
  plan_faults : {d : Disk} (faults : List Bool) → Step d (record d { faults = faults })
  save_task :
      {d : Disk} (t : Task) (expected new : ℕ) → Step d (FileSystem.save_task t expected new d).1
  append :
      {d : Disk} (context_id task_id : String) (expected : ℕ) (es : List StreamResponse)
      → Step d (FileSystem.append context_id task_id expected es d).1
  save_push_config :
      {d : Disk} (c : TaskPushNotificationConfig) → Step d (FileSystem.save_push_config c d).1
  delete_push_config :
      {d : Disk} (task_id config_id : String)
      → Step d (FileSystem.delete_push_config task_id config_id d).1

pub data Reachable : Disk → Type 0 where
  created : Reachable new_file_system_storage
  after : {d e : Disk} → Reachable d → Step d e → Reachable e

-- An action that leaves the context directories as they are.
abbrev Keeps {ℓ} : {A : Type ℓ} → Exec Disk A → Type 0
Keeps m = (d : Disk) → (m d).1.contexts ≡ d.contexts

continue-Keeps {ℓ κ} :
    {A : Type ℓ} {B : Type κ} (r : Result A) (f : A → Exec Disk B) (d : Disk)
    → ((a : A) → Keeps (f a))
    → (continue r f d).1.contexts ≡ d.contexts
continue-Keeps (ok a) f d keeps = keeps a d
continue-Keeps (err e) f d keeps = refl

then-Keeps {ℓ κ} :
    {A : Type ℓ} {B : Type κ} (m : Exec Disk A) (f : A → Exec Disk B)
    → Keeps m
    → ((a : A) → Keeps (f a))
    → Keeps (m >>= f)
then-Keeps m f first later d = continue-Keeps (m d).0 f (m d).1 later ∙ first d

os_call_with-Keeps : (faults : List Bool) → Keeps (os_call_with faults)
os_call_with-Keeps [] d = refl
os_call_with-Keeps (b ∷ bs) d = refl

os_call-Keeps : Keeps os_call
unfolding os_call
os_call-Keeps d = os_call_with-Keeps d.faults d

found_or-Keeps {ℓ} : {A : Type ℓ} (o : Option A) (e : Error) → Keeps (found_or o e)
found_or-Keeps none e d = refl
found_or-Keeps (some a) e d = refl

write_file-Keeps :
    (change : Disk → Disk)
    → ((d : Disk) → (change d).contexts ≡ d.contexts)
    → Keeps (FileSystem.write_file change)
unfolding FileSystem.write_file
write_file-Keeps change same =
    then-Keeps (wrapping os_call) _ os_call-Keeps
      (λ _. then-Keeps (wrapping os_call) _ os_call-Keeps (λ _. same))

get_task_without_lock-Keeps : (id : String) → Keeps (FileSystem.get_task_without_lock id)
unfolding FileSystem.get_task_without_lock
get_task_without_lock-Keeps id =
    then-Keeps (wrapping os_call) _ os_call-Keeps
      (λ _ d. found_or-Keeps (lookup id d.tasks) task_not_found d)

check_version-Keeps : (n : ℕ) (r : Result (Task × ℕ)) → Keeps (check_version n r)
check_version-Keeps n (ok (t, current)) d = elim (Bool-cases (nat_eq n current)) [
  | inl y ↦ rw y refl
  | inr other ↦ rw other refl
]
check_version-Keeps n (err task_not_found) d = refl
check_version-Keeps n (err e) d = refl

save_task-Keeps : (t : Task) (n m : ℕ) → Keeps (FileSystem.save_task t n m)
unfolding FileSystem.save_task
save_task-Keeps t n m d =
    let (r, s) = FileSystem.get_task_without_lock t.id d in
    then-Keeps (check_version n r) _ (check_version-Keeps n r) (λ _. write_file-Keeps _ (λ _. refl))
      s
    ∙ get_task_without_lock-Keeps t.id d

append_to-Keeps :
    (key : String × String) (n : ℕ) (es : List StreamResponse) (found : List StreamResponse × ℕ)
    → Keeps (append_to key n es found)
append_to-Keeps key n es (old, current) d = elim (Bool-cases (nat_eq n current)) [
  | inl y ↦
      rw y (then-Keeps (FileSystem.write_file _) _ (write_file-Keeps _ (λ _. refl)) (λ _ _. refl) d)
  | inr other ↦ rw other refl
]

append-Keeps :
    (c t : String) (n : ℕ) (es : List StreamResponse) → Keeps (FileSystem.append c t n es)
unfolding FileSystem.append
append-Keeps c t n es d =
    let (r, s) = os_call d in
    append_to-Keeps (c, t) n es (existing_or_empty r (lookup (c, t) s.events)) s ∙ os_call-Keeps d

save_push_config-Keeps : (c : TaskPushNotificationConfig) → Keeps (FileSystem.save_push_config c)
unfolding FileSystem.save_push_config
save_push_config-Keeps c = write_file-Keeps _ (λ _. refl)

delete_push_config-Keeps : (t c : String) → Keeps (FileSystem.delete_push_config t c)
unfolding FileSystem.delete_push_config
delete_push_config-Keeps t c = then-Keeps (wrapping os_call) _ os_call-Keeps (λ _.
    then-Keeps _ _ (λ d. found_or-Keeps (lookup (t, c) d.push_configs) push_config_not_found d)
      (λ _ _. refl))

Step-Keeps : {d e : Disk} → Step d e → e.contexts ≡ d.contexts
Step-Keeps (plan_faults f) = refl
Step-Keeps {d = d} (save_task t n m) = save_task-Keeps t n m d
Step-Keeps {d = d} (append c t n es) = append-Keeps c t n es d
Step-Keeps {d = d} (save_push_config c) = save_push_config-Keeps c d
Step-Keeps {d = d} (delete_push_config t c) = delete_push_config-Keeps t c d

no_contexts : {d : Disk} → Reachable d → d.contexts ≡ []
no_contexts created = refl
no_contexts (after r s) = Step-Keeps s ∙ no_contexts r

-- No operation of the backend makes a context's directory: whatever has been saved, the tasks of
-- any context are reported as "context not found" when no call of package os fails.
pub list_tasks_by_context-Reachable :
    (d : Disk)
    → Reachable d
    → d.faults ≡ []
    → (context_id : String) (h : ℤ)
    → list_tasks_by_context context_id h d ≡ (err context_not_found, d)
unfolding list_tasks_by_context lookup
list_tasks_by_context-Reachable d r works context_id h =
    rw (os_call-ready d works, no_contexts r) refl
