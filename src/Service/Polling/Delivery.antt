-- ===== src/Service/Polling/Delivery.antt =====
-- What the polling loops of atlasic.go deliver while no more than a hundred events come between two
-- polls.
use atlasic.Prelude.{
  ℕ, ◌≤◌, ◌<◌, ◌^◌, String, ◌≡◌, refl, Option, List, [], ◌∷◌, ◌++◌, map, map-append, append_assoc,
  append-nil, ℤ, pos, length, take, length-append, take-all, drop-append, u64, arith, Bool-cases,
  inl, inr, zero, suc, ◌-◌, true, ◌⊎◌, none, some, negsuc, last_n, drop-all, ltb, ap, sym,
}
use atlasic.Prelude.Exec.{ok}
use atlasic.A2a.{Message, StreamResponse, task_event, message_event, status_event, artifact_event}
use atlasic.Storage.{Storage, Lawful}
use atlasic.Service.{Settings, JobQueue, State}
use atlasic.Service.Polling.{
  Others, filter_event, stream_events, ends_final, later_version, cut_history,
}

later_version_lem : (last n : ℕ) → last ≤ n → n < 2 ^ 64 → later_version last (u64 n) ≡ n
later_version_lem last n le fits = ground arith

-- The event as the client gets it: a task with the last messages of its history, as many as asked
-- for, and anything else as it is.
abbrev pub shown_to : Option ℤ → StreamResponse → StreamResponse
shown_to (some (pos n)) (task_event t) = task_event (record t { history = last_n n t.history })
shown_to _ e = e

cut_history_lem : (n : ℕ) (history : List Message) → cut_history (pos n) history ≡ last_n n history
cut_history_lem zero history = sym (drop-all (length history - 0) history (omega arith))
cut_history_lem (suc n) history = elim (Bool-cases (ltb (suc n) (length history))) [
  | inl longer ↦ rw longer refl
  | inr whole ↦
      let none_left : length history - suc n ≡ 0 = ground (arith, whole) in
      rw (whole, none_left) refl
]

filter_event_lem : (h : Option ℤ) (e : StreamResponse) → filter_event h e ≡ shown_to h e
unfolding filter_event
filter_event_lem none e = refl
filter_event_lem (some (pos n)) (task_event t) =
    ap (λ history. task_event (record t { history = history })) (cut_history_lem n t.history)
filter_event_lem (some (negsuc n)) (task_event t) = refl
filter_event_lem (some (pos n)) (message_event m) = refl
filter_event_lem (some (pos n)) (status_event m) = refl
filter_event_lem (some (pos n)) (artifact_event m) = refl
filter_event_lem (some (negsuc n)) (message_event m) = refl
filter_event_lem (some (negsuc n)) (status_event m) = refl
filter_event_lem (some (negsuc n)) (artifact_event m) = refl

map-shown_to :
    (h : Option ℤ) (es : List StreamResponse) → map (filter_event h) es ≡ map (shown_to h) es
map-shown_to h [] = refl
map-shown_to h (e ∷ es) = rw (filter_event_lem h e, map-shown_to h es) refl

-- The last of the events is a final status.
abbrev pub Closes : List StreamResponse → Type 0
Closes [] = ⊥
Closes (status_event e ∷ []) = e.final ≡ true
Closes (task_event e ∷ []) = ⊥
Closes (message_event e ∷ []) = ⊥
Closes (artifact_event e ∷ []) = ⊥
Closes (d ∷ e ∷ es) = Closes (e ∷ es)

ends_final-Closes : (es : List StreamResponse) → ends_final es ≡ true → Closes es
ends_final-Closes [] over = cc
ends_final-Closes (status_event e ∷ []) over = over
ends_final-Closes (task_event e ∷ []) over = cc
ends_final-Closes (message_event e ∷ []) over = cc
ends_final-Closes (artifact_event e ∷ []) over = cc
ends_final-Closes (d ∷ e ∷ es) over = ends_final-Closes (e ∷ es) over

Closes-cons : (d : StreamResponse) (es : List StreamResponse) → Closes es → Closes (d ∷ es)
Closes-cons d [] closes = absurd closes
Closes-cons d (e ∷ es) closes = closes

Closes-append : (new es : List StreamResponse) → Closes es → Closes (new ++ es)
Closes-append [] es closes = closes
Closes-append (d ∷ new) es closes = Closes-cons d (new ++ es) (Closes-append new es closes)

module _ (c : Settings) (st : Storage) (q : JobQueue) (laws : Lawful st)
    (context_id task_id : String) where
  open laws use {Ready, stream, load_lem}

  abbrev pub events : State c st q → List StreamResponse
  events s = stream s.storage (context_id, task_id)

  -- A poll from the version after `seen` gets the first hundred of what has come since.
  pub poll_lem :
      (s : State c st q) (seen new : List StreamResponse)
      → Ready s.storage
      → events s ≡ seen ++ new
      → st.load context_id task_id (length seen) (pos 100) s.storage
        ≡ (ok (take 100 new, u64 (length (seen ++ new))), s.storage)
  poll_lem s seen new ready e =
      rw
        (
          load_lem context_id task_id (length seen) (pos 100) s.storage ready,
          e,
          drop-append (length seen) seen new refl,
        )
        refl

  pub next_start_lem :
      (seen new : List StreamResponse)
      → length (seen ++ new) < 2 ^ 64
      → later_version (length seen) (u64 (length (seen ++ new))) ≡ length (seen ++ new)
  next_start_lem seen new fits =
      later_version_lem (length seen) (length (seen ++ new)) (omega (arith, length-append seen new))
        fits

  -- At each round the stream goes on from what has been seen, by at most a hundred events.
  abbrev pub Bursts : List StreamResponse → List (Others c st q) → State c st q → Type 0
  Bursts seen [] s = Unit
  Bursts seen (others ∷ ticks) s =
      (new : List StreamResponse) × Ready (others s).storage
      × (events (others s) ≡ seen ++ new)
      × (length new ≤ 100)
      × (length (seen ++ new) < 2 ^ 64)
      × Bursts (seen ++ new) ticks (others s)

  -- The state at the last of the rounds.
  abbrev pub after_rounds : List (Others c st q) → State c st q → State c st q
  after_rounds [] s = s
  after_rounds (others ∷ ticks) s = after_rounds ticks (others s)

  -- What was sent is what has come after `seen`: all up to a final event, at which the stream was
  -- closed, or else all up to the last round, after which the context ended.
  pub record Delivered (h : Option ℤ) (ticks : List (Others c st q)) (ending : Others c st q)
      (seen : List StreamResponse) (s : State c st q) (end : List StreamResponse × State c st q)
      : Type 0 where
    pub new : List StreamResponse
    pub sent : end.0 ≡ map (shown_to h) new
    pub ended :
        ((events end.1 ≡ seen ++ new) × Closes new)
        ⊎ ((events (after_rounds ticks s) ≡ seen ++ new) × (end.1 ≡ ending (after_rounds ticks s)))

  -- One round, given what the later rounds deliver.
  tick-Delivered :
      (h : Option ℤ) (seen : List StreamResponse) (others : Others c st q)
      (ticks : List (Others c st q)) (ending : Others c st q) (s : State c st q)
      (new : List StreamResponse)
      → Ready (others s).storage
      → events (others s) ≡ seen ++ new
      → length new ≤ 100
      → length (seen ++ new) < 2 ^ 64
      → Delivered h ticks ending (seen ++ new) (others s) (
          stream_events c st q h context_id task_id ticks ending none
            (length (seen ++ new))
            (others s))
      → Delivered h
          (others ∷ ticks)
          ending
          seen
          s
          (stream_events c st q h context_id task_id (others ∷ ticks) ending none (length seen) s)
  unfolding stream_events
  tick-Delivered h seen others ticks ending s new ready grown few fits rest =
      elim (Bool-cases (ends_final new)) [
        | inl over ↦
            rw (poll_lem (others s) seen new ready grown, take-all 100 new few, over)
              (record {
                new = new;
                sent = map-shown_to h new;
                ended = inl (grown, ends_final-Closes new over);
              })
        | inr open_ ↦
            rw
              (
                poll_lem (others s) seen new ready grown,
                take-all 100 new few,
                open_,
                next_start_lem seen new fits,
              )
              (record {
                new = new ++ rest.new;
                sent = rw (rest.sent, map-shown_to h new, map-append) refl;
                ended = elim rest.ended [
                  | inl (all, closes) ↦
                      inl (rw (← append_assoc) all, Closes-append new rest.new closes)
                  | inr (all, last) ↦ inr (rw (← append_assoc) all, last)
                ];
              })
      ]

  later-Delivered :
      (h : Option ℤ) (seen : List StreamResponse) (ticks : List (Others c st q))
      (ending : Others c st q) (s : State c st q)
      → events s ≡ seen
      → Bursts seen ticks s
      → Delivered h ticks ending seen s
          (stream_events c st q h context_id task_id ticks ending none (length seen) s)
  unfolding stream_events
  later-Delivered h seen [] ending s e b = record {
    new = [];
    sent = refl;
    ended = inr (rw append-nil e, refl);
  }
  later-Delivered h seen (others ∷ ticks) ending s e (new, ready, grown, few, fits, more) =
      tick-Delivered h seen others ticks ending s new ready grown few fits
        (later-Delivered h (seen ++ new) ticks ending (others s) grown more)

  -- For a request that does not end while events are being sent: if no poll finds more than a hundred
  -- new ones, a stream has sent every event of the task, each once and in order, with a task's history
  -- cut to the length that the client asked for; up to a final one, after which it is closed, or up
  -- to the last poll before the context ends.
  pub stream_events-Delivered :
      (h : Option ℤ) (others : Others c st q) (ticks : List (Others c st q))
      (ending : Others c st q) (s : State c st q)
      → Bursts [] (others ∷ ticks) s
      → Delivered h
          (others ∷ ticks)
          ending
          []
          s
          (stream_events c st q h context_id task_id (others ∷ ticks) ending none 0 s)
  stream_events-Delivered h others ticks ending s (new, ready, grown, few, fits, more) =
      tick-Delivered h [] others ticks ending s new ready grown few fits
        (later-Delivered h new ticks ending (others s) grown more)
