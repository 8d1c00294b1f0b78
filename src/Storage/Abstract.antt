-- ===== src/Storage/Abstract.antt =====
-- What the storage interface (storage.go) promises, with the representation forgotten: a function
-- from task ids to snapshots and one from contexts and tasks to event streams, and each operation
-- as a step on these.
pub mod Refinement
pub mod Backends
use atlasic.Prelude.{
  ℕ, ◌+◌, String, Bool, true, false, ◌≢◌, Option, none, some, List, [], ◌∷◌, ◌++◌, ◌==◌, pair_eq,
  string_eq, nat_eq, if◌then◌else◌, u64, ℤ, pos, length, drop,
}
use atlasic.Prelude.Exec.{Exec, Result, ok, err, task_not_found, version_mismatch}
use atlasic.A2a.{Task, StreamResponse}
use atlasic.Storage.{Storage, limit_task, limit_events}

pub record Abstract : Type 0 where
  pub snapshot : String → Option (Task × ℕ)
  pub stream : String × String → List StreamResponse

abbrev pub empty : Abstract
empty = record { snapshot = λ id. none; stream = λ key. [] }

-- The calls that clients make.
pub data Request : Type 0 where
  get_task : String → ℤ → Request
  save_task : Task → ℕ → ℕ → Request
  append : String → String → ℕ → List StreamResponse → Request
  load : String → String → ℕ → ℤ → Request

pub data Reply : Type 0 where
  task : Result (Task × ℕ) → Reply
  saved : Result (Unit {0}) → Reply
  appended : Result ℕ → Reply
  loaded : Result (List StreamResponse × ℕ) → Reply

abbrev pub with_snapshot : Task → ℕ → Abstract → Abstract
with_snapshot t v a = record a {
  snapshot = λ id. if t.id == id then some (t, v) else a.snapshot id;
}

abbrev pub with_events : String × String → List StreamResponse → Abstract → Abstract
with_events at es a = record a {
  stream = λ key. if at == key then a.stream at ++ es else a.stream key;
}

abbrev pub found : ℤ → Option (Task × ℕ) → Result (Task × ℕ)
found h none = err task_not_found
found h (some (t, v)) = ok (limit_task h t, v)

abbrev pub save : Task → ℕ → ℕ → Option (Task × ℕ) → Abstract → Reply × Abstract
save t expected new none a = (saved (ok tt), with_snapshot t new a)
save t expected new (some (old, v)) a =
    if nat_eq expected v
    then (saved (ok tt), with_snapshot t new a)
    else (saved (err (version_mismatch expected v)), a)

-- Each call on the abstract storage.
unfoldable pub step : Request → Abstract → Reply × Abstract
step (get_task id h) a = (task (found h (a.snapshot id)), a)
step (save_task t expected new) a = save t expected new (a.snapshot t.id) a
step (append c t expected es) a =
    let current = u64 (length (a.stream (c, t))) in
    if nat_eq expected current
    then (appended (ok (u64 (expected + length es))), with_events (c, t) es a)
    else (appended (err (version_mismatch expected current)), a)
step (load c t start limit) a =
    let es = a.stream (c, t) in
    (loaded (ok (limit_events limit (drop start es), u64 (length es))), a)

unfoldable pub steps : List Request → Abstract → List Reply × Abstract
unfolding step
steps [] a = ([], a)
steps (x ∷ xs) a = let (r, a') = step x a in let (rs, end) = steps xs a' in (r ∷ rs, end)

-- The same calls on a backend.
module _ (st : Storage) where
  unfoldable pub call : Request → st.State → Reply × st.State
  call (get_task id h) s = let (r, s') = st.get_task id h s in (task r, s')
  call (save_task t expected new) s = let (r, s') = st.save_task t expected new s in (saved r, s')
  call (append c t expected es) s = let (r, s') = st.append c t expected es s in (appended r, s')
  call (load c t start limit) s = let (r, s') = st.load c t start limit s in (loaded r, s')

  unfoldable pub calls : List Request → st.State → List Reply × st.State
  unfolding call
  calls [] s = ([], s)
  calls (x ∷ xs) s = let (r, s') = call x s in let (rs, end) = calls xs s' in (r ∷ rs, end)

-- The backends differ on a history length of 0.
abbrev pub IsCommon : Request → Type 0
IsCommon (get_task id h) = h ≢ pos 0
IsCommon _ = Unit

abbrev pub AreCommon : List Request → Type 0
AreCommon [] = Unit
AreCommon (x ∷ xs) = IsCommon x × AreCommon xs
