-- ===== src/Service/Handle.antt =====
-- What an agent reads through its task handle to see what is new (task_handle.go): the history since
-- a message, and the events since a version.
use atlasic.Prelude.{
  ℕ, ◌<◌, ◌^◌, String, false, ◌≡◌, ◌≢◌, refl, ap, ◌∙◌, ◌⊎◌, inl, inr, List, [], ◌∷◌, ◌++◌, ◌==◌,
  string_eq, if◌then◌else◌, u64, negsuc, length, drop-append, Bool-cases, beq_self, pair_eq, eq_iff,
  arith,
}
use atlasic.Prelude.Exec.{Exec, ok, pure, wrapping, ◌>>=◌}
use atlasic.A2a.{Message, Task, StreamResponse}
use atlasic.Storage.{Storage, Lawful, history_length_all}
use atlasic.Service.{Settings, JobQueue, State, on_storage}
use atlasic.Service.Coherence.{IsCurrent, get_current}
use atlasic.Service.Updates.{key_of}

abbrev pub last_id : List Message → String
last_id [] = ""
last_id (m ∷ []) = m.message_id
last_id (m ∷ n ∷ ms) = last_id (n ∷ ms)

-- The loop that finds the message, and what is after it.
unfoldable pub after_message : String → List Message → List Message
after_message since [] = []
after_message since (m ∷ ms) =
    let later = after_message since ms in if m.message_id == since then ms else later

unfoldable pub history_since : String → List Message → List Message
unfolding after_message
history_since since ms = if since == "" then ms else after_message since ms

module _ (c : Settings) (st : Storage) (q : JobQueue) (context_id task_id : String) where
  unfoldable pub get_last_message_id : Exec (State c st q) String
  get_last_message_id = do
    (task, version) ← wrapping (on_storage c st q (st.get_task task_id history_length_all))
    pure (last_id task.history)

  unfoldable pub get_history_since : String → Exec (State c st q) (List Message)
  unfolding history_since
  get_history_since since = do
    (task, version) ← wrapping (on_storage c st q (st.get_task task_id history_length_all))
    pure (history_since since task.history)

  unfoldable pub get_last_event_version : Exec (State c st q) ℕ
  get_last_event_version = do
    (events, last) ← wrapping (on_storage c st q (st.load context_id task_id 0 (negsuc 0)))
    pure last

  unfoldable pub get_events_since : ℕ → Exec (State c st q) (List StreamResponse)
  get_events_since since = do
    (events, last) ← wrapping (on_storage c st q (st.load context_id task_id since (negsuc 0)))
    pure events

-- No message of the list has this id.
abbrev pub NotIn : String → List Message → Type 0
NotIn id [] = Unit
NotIn id (m ∷ ms) = ((m.message_id == id) ≡ false) × NotIn id ms

-- What is new since the message of an id: all of it for no id, what follows the first message of that
-- id, and nothing where there is none.
abbrev pub IsSince : String → List Message → List Message → Type 0
IsSince since history found =
    ((since ≡ "") × (found ≡ history))
    ⊎ ((since ≢ "") × NotIn since history × (found ≡ []))
    ⊎ ((since ≢ "")
        × (earlier : List Message) × (m : Message) × (history ≡ earlier ++ (m ∷ found))
        × (m.message_id ≡ since)
        × NotIn since earlier)

after_message_lem :
    (since : String) (ms : List Message)
    → (NotIn since ms × (after_message since ms ≡ []))
      ⊎ ((earlier : List Message) × (m : Message) × (ms ≡ earlier ++ (m ∷ after_message since ms))
          × (m.message_id ≡ since)
          × NotIn since earlier)
unfolding after_message
after_message_lem since [] = inl (tt, refl)
after_message_lem since (m ∷ ms) = elim (Bool-cases (m.message_id == since)) [
  | inl same ↦ rw same (inr ([], m, refl, (eq_iff m.message_id since).0 same, tt))
  | inr other ↦ elim (after_message_lem since ms) [
    | inl (absent, none_after) ↦ rw other (inl ((refl, absent), none_after))
    | inr (earlier, found, split, named, before) ↦
        rw other (inr (m ∷ earlier, found, ap (◌∷◌ m) split, named, (other, before)))
  ]
]

history_since-IsSince :
    (since : String) (ms : List Message) → IsSince since ms (history_since since ms)
unfolding history_since
history_since-IsSince since ms = elim (Bool-cases (since == "")) [
  | inl empty ↦ rw empty (inl ((eq_iff since "").0 empty, refl))
  | inr given ↦
      let ne : since ≢ "" = λ e. cc ((eq_iff since "").1 e) in
      elim (after_message_lem since ms) [
        | inl (absent, e) ↦ rw given (inr (inl (ne, absent, e)))
        | inr (earlier, m, split, named, before) ↦
            rw given (inr (inr (ne, earlier, m, split, named, before)))
      ]
]

module _ (c : Settings) (st : Storage) (q : JobQueue) (laws : Lawful st) (t : Task) where
  open laws use {Ready, stream, load_lem, append_current, append_ready, stream-append}

  -- For a task that is coherent, an agent that asks for the history since a message gets what follows
  -- the first message with that id, nothing where the history has none, and all of it for the empty
  -- id; and nothing changes.
  pub get_history_since-IsSince :
      (since : String) (s : State c st q)
      → IsCurrent st laws s.storage t
      → (found : List Message) × (get_history_since c st q t.context_id t.id since s
          ≡ (ok found, s))
        × IsSince since t.history found
  unfolding get_history_since
  get_history_since-IsSince since s cur = (
    history_since since t.history,
    rw (get_current c st q laws t s.storage cur) refl,
    history_since-IsSince since t.history,
  )

  -- An agent that remembers the version of the events that it has seen gets, after a write to the
  -- task's stream, exactly the events of that write, if their count fits in 64 bits.
  pub get_events_since-append :
      (es : List StreamResponse) (s : State c st q)
      → Ready s.storage
      → length (stream s.storage (key_of t)) < 2 ^ 64
      → (seen : ℕ) × (get_last_event_version c st q t.context_id t.id s ≡ (ok seen, s))
        × (let s' = record s { storage = (st.append t.context_id t.id seen es s.storage).1 } in
            get_events_since c st q t.context_id t.id seen s' ≡ (ok es, s'))
  unfolding get_last_event_version get_events_since
  get_events_since-append es s ready fits =
      let seen = length (stream s.storage (key_of t)) in
      let same : seen ≡ u64 seen = omega (arith, fits) in
      let after = (st.append t.context_id t.id seen es s.storage).1 in
      let ready' = append_ready t.context_id t.id seen es s.storage ready same in
      let grown : stream after (key_of t) ≡ stream s.storage (key_of t) ++ es =
        stream-append t.context_id t.id seen es s.storage (key_of t) ready same
        ∙ rw (beq_self (key_of t)) refl in
      (
        seen,
        rw (load_lem t.context_id t.id 0 (negsuc 0) s.storage ready, ← same) refl,
        rw
            (
              load_lem t.context_id t.id seen (negsuc 0) after ready',
              grown,
              drop-append seen (stream s.storage (key_of t)) es refl,
            )
            refl,
      )
