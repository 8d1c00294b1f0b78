-- ===== src/Service/Messages/Accepted.antt =====
-- Messages that are taken and tasks that are cancelled (atlasic.go): what the storage holds then.
use atlasic.Prelude.{
  ℕ, suc, String, true, false, ◌≡◌, ◌≢◌, refl, Option, none, some, List, [], ◌∷◌, ◌++◌, ◌==◌,
  string_eq, pair_eq, if◌then◌else◌, arith, pos, Bool-cases, inl, inr,
}
use atlasic.Prelude.Exec.{ok}
use atlasic.A2a.{
  role_user, kind_message, kind_task, submitted, TaskState, canceled, is_terminal, is_interrupted,
  can_cancel, Part, Message, no_options, new_message, new_text_part, Task,
}
use atlasic.Storage.{Storage, Lawful}
use atlasic.Service.{Settings, JobQueue, State, is_canceled}
use atlasic.Service.Coherence.{Announced, IsCurrent, OthersKept, get_current}
use atlasic.Service.Writes.{
  status_of, add_message-IsCurrent, add_message-Announced, update_status-IsCurrent,
}
use atlasic.Service.Messages.Creation.{create_new_task-IsCurrent, create_new_task-Announced}
use atlasic.Service.Messages.{
  options_of, is_foreign_role, process_message, cancel_task, create_new_task_from_message,
  or_generated,
}

not_canceled : (state : TaskState) → is_terminal state ≡ false → is_canceled state ≡ false
unfolding is_terminal
not_canceled state h = ground arith

cancelable : (state : TaskState) → can_cancel state ≡ true → is_canceled state ≡ false
unfolding can_cancel
cancelable state h = ground arith

one_message : pos 1 ≢ pos 0
one_message = ground arith

-- A user's message as it is kept, under an id.
abbrev pub from_user : String → Message → Message
from_user id m = record {
  kind = kind_message;
  message_id = id;
  context_id = "";
  task_id = "";
  role = role_user;
  parts = m.parts;
  reference_task_ids = m.reference_task_ids;
  extensions = m.extensions;
  metadata = m.metadata;
}

module _ (c : Settings) (st : Storage) (q : JobQueue) (laws : Lawful st) where
  open laws use {Ready, snapshot, stream, get_task_found}

  -- A user's message with an id, for a task that is there and not in a terminal state, is added at
  -- the end of its history, with its parts, references, extensions and metadata; the agent is to be
  -- run exactly if the task was interrupted. Of the state, no other task or stream changes, no job
  -- is enqueued, nothing is generated, and each event that the stream got is delivered to each of the
  -- task's endpoints, where push notifications are on.
  pub process_message-existing :
      (t : Task) (m : Message) (s : State c st q)
      → IsCurrent st laws s.storage t
      → is_terminal t.status.state ≡ false
      → is_foreign_role m.role ≡ false
      → (m.message_id == "") ≡ false
      → (m.task_id == "") ≡ false
      → m.task_id ≡ t.id
      → let (r, s') = process_message c st q m s in
        (r ≡ ok (t.id, t.context_id, is_interrupted t.status.state))
        × IsCurrent st laws s'.storage
            (record t { history = t.history ++ from_user m.message_id m ∷ [] })
        × OthersKept st laws t s.storage s'.storage
        × Announced c st q laws t s.generated s s'
  unfolding process_message new_message
  process_message-existing t m s cur open_ own has_id has_task same =
      let (returned, current, others) =
        add_message-IsCurrent c st q laws t s cur m.message_id role_user m.parts (options_of m) in
      rw (own, has_id, has_task, same, get_current c st q laws t s.storage cur, open_, returned)
        (
          refl,
          current,
          others,
          add_message-Announced c st q laws t s cur m.message_id role_user m.parts (options_of m),
        )

  -- A task that is not in a terminal state is cancelled: what is returned is the task with the
  -- status "canceled" and its notice, which is also what the storage holds from then on.
  pub cancel_task-IsCurrent :
      (t : Task) (s : State c st q)
      → IsCurrent st laws s.storage t
      → can_cancel t.status.state ≡ true
      → let (r, s') = cancel_task c st q t.id s in
        let parts = some (new_text_part "Task cancelled by user" ∷ []) in
        let t' = record t {
          status = status_of c st q laws s.generated canceled parts no_options;
        } in
        (r ≡ ok t') × IsCurrent st laws s'.storage t' × OthersKept st laws t s.storage s'.storage
  unfolding cancel_task
  cancel_task-IsCurrent t s cur can =
      let parts : Option (List Part) = some (new_text_part "Task cancelled by user" ∷ []) in
      let (returned, current, others) =
        update_status-IsCurrent c st q laws t s cur canceled parts no_options
          (cancelable t.status.state can) in
      rw
        (
          get_task_found t.id (pos 1) s.storage t _ cur.ready one_message cur.stored,
          can,
          returned,
          get_current c st q laws _ _ current,
        )
        (refl, current, others)

-- An id that the client gave, or else the next generated one, and the count after it.
abbrev pub id_or : String → (ℕ → String) → ℕ → String
id_or x f n = if x == "" then f n else x

abbrev pub count_or : String → ℕ → ℕ
count_or x n = if x == "" then suc n else n

module _ (c : Settings) (st : Storage) (q : JobQueue) (laws : Lawful st) where
  open laws use {Ready, snapshot, stream}

  or_generated_lem :
      (x : String) (f : ℕ → String) (s : State c st q)
      → or_generated c st q x f s
        ≡ (ok (id_or x f s.generated), record s { generated = count_or x s.generated })
  or_generated_lem x f s = elim (Bool-cases (x == "")) [
    | inl empty ↦ rw empty refl
    | inr given ↦ rw given refl
  ]

  -- The ids that a message for a new task ends up with.
  abbrev pub new_message_id : Message → State c st q → String
  new_message_id m s = id_or m.message_id c.message_id s.generated

  abbrev pub new_context_id : Message → State c st q → String
  new_context_id m s = id_or m.context_id c.context_id (count_or m.message_id s.generated)

  abbrev pub new_task_id : Message → State c st q → String
  new_task_id m s = c.task_id (count_or m.context_id (count_or m.message_id s.generated))

  abbrev pub new_task : Message → State c st q → Task
  new_task m s = record {
    kind = kind_task;
    id = new_task_id m s;
    context_id = new_context_id m s;
    status = record { state = submitted; message = none; timestamp = none };
    history = from_user (new_message_id m s) m ∷ [];
    artifacts = [];
    metadata = [];
  }

  -- A user's message that names no task makes a new one, under a generated id and in the context
  -- that it names or else in a generated one. If the storage has nothing under these ids yet, the
  -- task is there with the message, under the client's or a generated message id, as its history
  -- and with the status "submitted"; the agent is to be run. Of the state, no other task or stream
  -- changes, no job is enqueued, the count of generated values grows by those that the ids took, and
  -- each event that the stream got is delivered to each of the task's endpoints, where push
  -- notifications are on.
  pub process_message-new :
      (m : Message) (s : State c st q)
      → Ready s.storage
      → is_foreign_role m.role ≡ false
      → (m.task_id == "") ≡ true
      → snapshot s.storage (new_task_id m s) ≡ none
      → stream s.storage (new_context_id m s, new_task_id m s) ≡ []
      → let (r, s') = process_message c st q m s in
        (r ≡ ok (new_task_id m s, new_context_id m s, true))
        × IsCurrent st laws s'.storage (new_task m s)
        × OthersKept st laws (new_task m s) s.storage s'.storage
        × Announced c st q laws
            (new_task m s)
            (suc (count_or m.context_id (count_or m.message_id s.generated)))
            s
            s'
  unfolding process_message create_new_task_from_message new_message
  process_message-new m s ready own no_task unknown_task no_events =
      let announced =
        create_new_task-Announced c st q laws (new_task_id m s) (new_context_id m s)
          (new_message (new_message_id m s) role_user m.parts (options_of m))
          (record s { generated = suc (count_or m.context_id (count_or m.message_id s.generated)) })
          ready unknown_task no_events in
      let (returned, current, others) =
        create_new_task-IsCurrent c st q laws (new_task_id m s) (new_context_id m s)
          (new_message (new_message_id m s) role_user m.parts (options_of m))
          (record s { generated = suc (count_or m.context_id (count_or m.message_id s.generated)) })
          ready unknown_task no_events in
      rw
        (
          own,
          or_generated_lem m.message_id c.message_id s,
          no_task,
          or_generated_lem m.context_id c.context_id _,
          returned,
        )
        (
          refl,
          current,
          others,
          record {
            added = announced.added;
            grown = announced.grown;
            sent = announced.sent;
            notified = announced.notified;
            notifies = announced.notifies;
            jobs = announced.jobs;
            generated = announced.generated;
          },
        )
