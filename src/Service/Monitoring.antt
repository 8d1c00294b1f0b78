-- ===== src/Service/Monitoring.antt =====
-- What runs beside an agent and around jobs (atlasic.go): `processJobMonitoring`,
-- `checkAndHandleTaskCancellation` and `workerLoop`.
--
-- A round of the monitor is one case of its select, with what all other goroutines did to the state
-- before it. After the last of the given rounds the background context ends.
pub mod Cancels
use atlasic.Prelude.{ℕ, String, Bool, true, false, ◌||◌, List, [], ◌∷◌, if◌then◌else◌, pos}
use atlasic.Prelude.Exec.{Result, ok, err}
use atlasic.A2a.{Task, is_terminal}
use atlasic.Storage.{Storage}
use atlasic.Service.{Settings, JobQueue, State, on_storage, is_canceled}
use atlasic.Service.Polling.{Others}

-- The heartbeat timer, with what the job's `ExtendTimeoutFunc` gives if it is called, or the timer
-- of the cancellation checks.
pub data Tick : Type 0 where
  heartbeat : Result (Unit {0}) → Tick
  check : Tick

-- Whether what the storage gave tells the agent to stop.
unfoldable pub tells_to_stop : Result (Task × ℕ) → Bool
tells_to_stop (err e) = false
tells_to_stop (ok (t, version)) = is_canceled t.status.state || is_terminal t.status.state

-- A heartbeat is sent only if the job has the function.
unfoldable pub is_lost : Bool → Result (Unit {0}) → Bool
is_lost false r = false
is_lost true (ok u) = false
is_lost true (err e) = true

module _ (c : Settings) (st : Storage) (q : JobQueue) where
  unfoldable pub check_and_handle_task_cancellation : String → State c st q → Bool × State c st q
  unfolding tells_to_stop
  check_and_handle_task_cancellation id s =
      let (r, s') = on_storage c st q (st.get_task id (pos 1)) s in (tells_to_stop r, s')

  abbrev pub after_tick : Bool → String → Tick → State c st q → Bool × State c st q
  after_tick has_extend id (heartbeat r) s = (is_lost has_extend r, s)
  after_tick has_extend id check s = check_and_handle_task_cancellation id s

  -- Whether the monitor cancelled the agent, and the state in which it ended.
  unfoldable pub process_job_monitoring :
      Bool → String → List (Others c st q × Tick) → State c st q → Bool × State c st q
  process_job_monitoring has_extend id [] s = (false, s)
  process_job_monitoring has_extend id ((others, tick) ∷ rounds) s =
      let (stops, s') = after_tick has_extend id tick (others s) in
      let rest = process_job_monitoring has_extend id rounds s' in
      if stops then (true, s') else rest
