-- ===== src/Service/Polling/Bursts.antt =====
-- The waiting loop of a blocking `SendMessage` (atlasic.go), and what both loops do with a burst of
-- more than a hundred events between two polls.
use atlasic.Prelude.{
  ℕ, zero, suc, ◌≤◌, ◌<◌, ◌^◌, String, true, false, ◌⊎◌, ◌∙◌, ◌≡◌, refl, List, [], ◌∷◌, ◌++◌,
  append_assoc, append-nil, length, take, take-all, arith, Bool-cases, inl, inr,
}
use atlasic.Prelude.Exec.{Result, ok, err, context_done}
use atlasic.A2a.{StreamResponse, task_event, message_event, status_event, artifact_event}
use atlasic.Storage.{Storage, Lawful}
use atlasic.Service.{Settings, JobQueue, State}
use atlasic.Service.Polling.{Others, wait_for_task_completion, is_final, any_final}
use atlasic.Service.Polling.Delivery.{events, after_rounds, poll_lem, next_start_lem, Bursts}

any_final-append :
    (a b : List StreamResponse) → any_final a ≡ false → any_final (a ++ b) ≡ any_final b
any_final-append [] b e = refl
any_final-append (x ∷ a) b e = elim (Bool-cases (is_final x)) [
  | inl y ↦ ground (arith, e, y)
  | inr n ↦ rw n (any_final-append a b (ground (arith, e, n)))
]

-- There is a final status among the events.
abbrev pub HasFinal : List StreamResponse → Type 0
HasFinal [] = ⊥
HasFinal (status_event e ∷ es) = (e.final ≡ true) ⊎ HasFinal es
HasFinal (task_event e ∷ es) = HasFinal es
HasFinal (message_event e ∷ es) = HasFinal es
HasFinal (artifact_event e ∷ es) = HasFinal es

any_final-HasFinal : (es : List StreamResponse) → any_final es ≡ true → HasFinal es
any_final-HasFinal [] h = cc
any_final-HasFinal (status_event e ∷ es) h = elim (Bool-cases e.final) [
  | inl final ↦ inl final
  | inr more ↦ inr (any_final-HasFinal es (rw more at h))
]
any_final-HasFinal (task_event e ∷ es) h = any_final-HasFinal es h
any_final-HasFinal (message_event e ∷ es) h = any_final-HasFinal es h
any_final-HasFinal (artifact_event e ∷ es) h = any_final-HasFinal es h

any_final-none : (es : List StreamResponse) → any_final es ≡ false → ¬ HasFinal es
any_final-none [] h has = has
any_final-none (status_event e ∷ es) h has = elim (Bool-cases e.final) [
  | inl final ↦ absurd (let found : true ≡ false = rw final at h in cc)
  | inr more ↦ elim has [
    | inl final ↦ cc (final, more)
    | inr later ↦ any_final-none es (rw more at h) later
  ]
]
any_final-none (task_event e ∷ es) h has = any_final-none es h has
any_final-none (message_event e ∷ es) h has = any_final-none es h has
any_final-none (artifact_event e ∷ es) h has = any_final-none es h has

module _ (c : Settings) (st : Storage) (q : JobQueue) (laws : Lawful st)
    (context_id task_id : String) where
  open laws use {Ready}

  -- Rounds in which nothing happens.
  abbrev pub quiet : ℕ → List (Others c st q)
  quiet zero = []
  quiet (suc n) = (λ s. s) ∷ quiet n

  -- A wait has found a final event among those after `seen`; or the context has ended after the last
  -- round, by which there was none.
  pub record Waited (ticks : List (Others c st q)) (ending : Others c st q)
      (seen : List StreamResponse) (s : State c st q) (end : Result (Unit {0}) × State c st q)
      : Type 0 where
    pub new : List StreamResponse
    pub answered :
        ((end.0 ≡ ok tt)
          × (events c st q laws context_id task_id end.1 ≡ seen ++ new)
          × (any_final new ≡ true))
        ⊎ ((end ≡ (err context_done, ending (after_rounds c st q laws context_id task_id ticks s)))
            × (events c st q laws context_id task_id
                  (after_rounds c st q laws context_id task_id ticks s)
                ≡ seen ++ new)
            × (any_final new ≡ false))

  tick-Waited :
      (seen : List StreamResponse) (others : Others c st q) (ticks : List (Others c st q))
      (ending : Others c st q) (s : State c st q) (new : List StreamResponse)
      → Ready (others s).storage
      → events c st q laws context_id task_id (others s) ≡ seen ++ new
      → length new ≤ 100
      → length (seen ++ new) < 2 ^ 64
      → Waited ticks ending (seen ++ new) (others s) (
          wait_for_task_completion c st q context_id task_id ticks ending
            (length (seen ++ new))
            (others s))
      → Waited (others ∷ ticks) ending seen s (
          wait_for_task_completion c st q context_id task_id
            (others ∷ ticks)
            ending
            (length seen)
            s)
  unfolding wait_for_task_completion
  tick-Waited seen others ticks ending s new ready grown few fits rest =
      elim (Bool-cases (any_final new)) [
        | inl over ↦
            rw
              (
                poll_lem c st q laws context_id task_id (others s) seen new ready grown,
                take-all 100 new few,
                over,
              )
              (record { new = new; answered = inl (refl, grown, over) })
        | inr open_ ↦
            rw
              (
                poll_lem c st q laws context_id task_id (others s) seen new ready grown,
                take-all 100 new few,
                open_,
                next_start_lem c st q laws context_id task_id seen new fits,
              )
              (record {
                new = new ++ rest.new;
                answered = elim rest.answered [
                  | inl (r, all, final) ↦
                      inl (r, rw (← append_assoc) all, any_final-append new rest.new open_ ∙ final)
                  | inr (r, all, none_) ↦
                      inr (r, rw (← append_assoc) all, any_final-append new rest.new open_ ∙ none_)
                ];
              })
      ]

  later-Waited :
      (seen : List StreamResponse) (ticks : List (Others c st q)) (ending : Others c st q)
      (s : State c st q)
      → events c st q laws context_id task_id s ≡ seen
      → Bursts c st q laws context_id task_id seen ticks s
      → Waited ticks ending seen s
          (wait_for_task_completion c st q context_id task_id ticks ending (length seen) s)
  unfolding wait_for_task_completion
  later-Waited seen [] ending s e b = record {
    new = [];
    answered = inr (refl, rw append-nil e, refl);
  }
  later-Waited seen (others ∷ ticks) ending s e (new, ready, grown, few, fits, more) =
      tick-Waited seen others ticks ending s new ready grown few fits
        (later-Waited (seen ++ new) ticks ending (others s) grown more)

  -- If no poll finds more than a hundred new events, a blocking request's wait succeeds, with a final
  -- event among the task's; or its context ends, and at the last poll the task had no final event,
  -- whatever others did afterwards.
  pub wait_for_task_completion-Waited :
      (others : Others c st q) (ticks : List (Others c st q)) (ending : Others c st q)
      (s : State c st q)
      → Bursts c st q laws context_id task_id [] (others ∷ ticks) s
      → let end = wait_for_task_completion c st q context_id task_id (others ∷ ticks) ending 0 s in
        let last = after_rounds c st q laws context_id task_id (others ∷ ticks) s in
        ((end.0 ≡ ok tt) × HasFinal (events c st q laws context_id task_id end.1))
        ⊎ ((end ≡ (err context_done, ending last))
            × ¬ HasFinal (events c st q laws context_id task_id last))
  wait_for_task_completion-Waited others ticks ending s (new, ready, grown, few, fits, more) =
      let waited =
        tick-Waited [] others ticks ending s new ready grown few fits
          (later-Waited new ticks ending (others s) grown more) in
      elim waited.answered [
        | inl (r, all, final) ↦ inl (r, rw all (any_final-HasFinal waited.new final))
        | inr (r, all, none_) ↦ inr (r, rw all (any_final-none waited.new none_))
      ]

  quiet-Waits :
      (all : List StreamResponse) (n : ℕ) (ending : Others c st q) (s : State c st q)
      → Ready s.storage
      → events c st q laws context_id task_id s ≡ all
      → length all < 2 ^ 64
      → wait_for_task_completion c st q context_id task_id (quiet n) ending (length all) s
        ≡ (err context_done, ending s)
  unfolding wait_for_task_completion
  quiet-Waits all zero ending s ready e fits = refl
  quiet-Waits all (suc n) ending s ready e fits =
      rw
        (
          poll_lem c st q laws context_id task_id s all [] ready (rw append-nil e),
          next_start_lem c st q laws context_id task_id all [] (rw append-nil fits),
          append-nil all,
        )
        (quiet-Waits all n ending s ready e fits)

  -- If a poll finds more events than its limit and the final one is not among the first hundred,
  -- the wait never returns while nothing more happens: later polls start after all of them.
  pub wait_for_task_completion-burst :
      (others : Others c st q) (n : ℕ) (ending : Others c st q) (s : State c st q)
      (seen new : List StreamResponse)
      → Ready (others s).storage
      → events c st q laws context_id task_id (others s) ≡ seen ++ new
      → length (seen ++ new) < 2 ^ 64
      → any_final (take 100 new) ≡ false
      → wait_for_task_completion c st q context_id task_id (others ∷ quiet n) ending (length seen) s
        ≡ (err context_done, ending (others s))
  unfolding wait_for_task_completion
  wait_for_task_completion-burst others n ending s seen new ready grown fits early =
      rw
        (
          poll_lem c st q laws context_id task_id (others s) seen new ready grown,
          early,
          next_start_lem c st q laws context_id task_id seen new fits,
        )
        (quiet-Waits (seen ++ new) n ending (others s) ready grown fits)
