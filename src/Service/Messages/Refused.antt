-- ===== src/Service/Messages/Refused.antt =====
-- Messages and requests that are refused (atlasic.go): the error, and that nothing is written.
use atlasic.Prelude.{
  ℕ, String, true, false, ◌≡◌, ◌≢◌, refl, Option, none, some, ◌==◌, string_eq, Option-cases, inl,
  inr, arith, pos,
}
use atlasic.Prelude.Exec.{is_task_not_found, err, rpc}
use atlasic.A2a.{
  TaskState, is_terminal, can_cancel, Message, Task, error_code_invalid_params,
  error_code_task_not_found, error_code_task_not_cancelable,
}
use atlasic.Storage.{Storage, Lawful, history_length_all}
use atlasic.Service.{Settings, JobQueue, State}
use atlasic.Service.Messages.{is_foreign_role, process_message, cancel_task}

one_message : pos 1 ≢ pos 0
one_message = ground arith

all_history : history_length_all ≢ pos 0
all_history e = cc

terminal_stays : (state : TaskState) → is_terminal state ≡ true → can_cancel state ≡ false
unfolding can_cancel
terminal_stays state h = ground arith

-- No task, or one in a terminal state.
abbrev pub IsClosed : Option (Task × ℕ) → Type 0
IsClosed none = Unit
IsClosed (some (t, v)) = is_terminal t.status.state ≡ true

-- The code for a task that is there, and that for one that is not.
abbrev pub code_for : ℕ → Option (Task × ℕ) → ℕ
code_for code none = error_code_task_not_found
code_for code (some (t, v)) = code

module _ (c : Settings) (st : Storage) (q : JobQueue) (laws : Lawful st) where
  open laws use {Ready, snapshot, get_task_found, get_task_missing}

  -- A message of any role but the user's, or the empty one, is refused before anything is done.
  pub process_message-foreign :
      (m : Message) (s : State c st q)
      → is_foreign_role m.role ≡ true
      → process_message c st q m s ≡ (err (rpc error_code_invalid_params), s)
  unfolding process_message
  process_message-foreign m s h = rw h refl

  -- A user's message for a task that is not there, or is in a terminal state, is refused with the
  -- code for each, and the service is left as it was.
  pub process_message-closed :
      (m : Message) (s : State c st q)
      → Ready s.storage
      → is_foreign_role m.role ≡ false
      → (m.message_id == "") ≡ false
      → (m.task_id == "") ≡ false
      → IsClosed (snapshot s.storage m.task_id)
      → process_message c st q m s
        ≡ (err (rpc (code_for error_code_invalid_params (snapshot s.storage m.task_id))), s)
  unfolding process_message
  process_message-closed m s ready own has_id has_task closed =
      elim (Option-cases (snapshot s.storage m.task_id)) [
        | inl missing ↦
            rw
              (
                own,
                has_id,
                has_task,
                get_task_missing m.task_id history_length_all s.storage ready missing,
                missing,
              )
              (unfold is_task_not_found in refl)
        | inr ((t, v), found) ↦
            let over : is_terminal t.status.state ≡ true = rw found at closed in
            rw
              (
                own,
                has_id,
                has_task,
                get_task_found m.task_id history_length_all s.storage t v ready all_history found,
                over,
                found,
              )
              refl
      ]

  -- `tasks/cancel` of a task that is not there, or is in a terminal state, is refused with the code
  -- for each, and the service is left as it was.
  pub cancel_task-closed :
      (id : String) (s : State c st q)
      → Ready s.storage
      → IsClosed (snapshot s.storage id)
      → cancel_task c st q id s
        ≡ (err (rpc (code_for error_code_task_not_cancelable (snapshot s.storage id))), s)
  unfolding cancel_task
  cancel_task-closed id s ready closed = elim (Option-cases (snapshot s.storage id)) [
    | inl missing ↦
        rw (get_task_missing id (pos 1) s.storage ready missing, missing)
          (unfold is_task_not_found in refl)
    | inr ((t, v), found) ↦
        let over : is_terminal t.status.state ≡ true = rw found at closed in
        rw
          (
            get_task_found id (pos 1) s.storage t v ready one_message found,
            terminal_stays t.status.state over,
            found,
          )
          refl
  ]
