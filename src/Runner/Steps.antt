-- ===== src/Runner/Steps.antt =====
-- The iterator over the steps of a runner (`Steps` of model/runner.go).
--
-- It walks a list of rounds: each says whether the context has ended before the step, and whether
-- the caller goes on after it. The caller of an endless run is one with more rounds.
use atlasic.Prelude.{
  suc, Bool, true, false, not, ◌&&◌, ◌≡◌, refl, Option, none, some, List, [], ◌∷◌, length, ◌≤◌,
  arith,
}
use atlasic.Prelude.Exec.{context_done}
use atlasic.Runner.{
  Step, StepError, generate_error, Setup, Runner, GenerateResponse, next, is_tool_use,
}

pub record Round : Type 0 where
  pub is_done : Bool
  pub goes_on : Bool

abbrev pub no_step : Step
no_step = record { index = 0; attempt = 0; response = none; tool_calls = []; tool_results = [] }

-- A step with a response that asks for no tools ends the iteration.
abbrev pub is_last_response : Option GenerateResponse → Bool
is_last_response none = false
is_last_response (some response) = not (is_tool_use response.stop_reason)

abbrev pub is_last : Step × StepError → Bool
is_last (step, e) = is_last_response step.response

abbrev pub Yielded : Type 0 → Type 0
Yielded W = List (Step × StepError) × Runner W

-- By whether the context has ended and whether the iteration goes on after the step.
abbrev pub yielded_in :
    {W : Type 0} → Bool → Bool → Runner W → (Step × StepError) × Runner W → Yielded W → Yielded W
yielded_in true goes_on r here later = ((no_step, generate_error context_done) ∷ [], r)
yielded_in false true r (y, r') (ys, end) = (y ∷ ys, end)
yielded_in false false r (y, r') later = (y ∷ [], r')

module _ {W : Type 0} (c : Setup W) where
  unfoldable pub run_steps : List Round → Runner W → Yielded W
  run_steps [] r = ([], r)
  run_steps (round ∷ rounds) r =
      let here = next c r in
      let later = run_steps rounds here.1 in
      yielded_in round.is_done (round.goes_on && not (is_last here.0)) r here later

-- Nothing is yielded after a step that ends the iteration.
abbrev pub NothingAfterLast : List (Step × StepError) → Type 0
NothingAfterLast [] = Unit
NothingAfterLast (y ∷ []) = Unit
NothingAfterLast (y ∷ z ∷ ys) = (is_last y ≡ false) × NothingAfterLast (z ∷ ys)

NothingAfterLast-cons :
    (y : Step × StepError) (ys : List (Step × StepError))
    → is_last y ≡ false
    → NothingAfterLast ys
    → NothingAfterLast (y ∷ ys)
NothingAfterLast-cons y [] open_ all = tt
NothingAfterLast-cons y (z ∷ ys) open_ all = (open_, all)

module _ {W : Type 0} (c : Setup W) where
  -- Whatever the context and the caller do: nothing is yielded after a step with a response that asks
  -- for no tools, and no round yields more than one step.
  pub run_steps-NothingAfterLast :
      (rounds : List Round) (r : Runner W)
      → NothingAfterLast (run_steps c rounds r).0
        × (length (run_steps c rounds r).0 ≤ length rounds)
  unfolding run_steps
  run_steps-NothingAfterLast [] r = (tt, omega arith)
  run_steps-NothingAfterLast (round ∷ rounds) r =
      let (all, few) = run_steps-NothingAfterLast rounds (next c r).1 in
      by_round round.is_done (round.goes_on && not (is_last (next c r).0)) goes-open all few
    where
      goes-open :
          (round.goes_on && not (is_last (next c r).0)) ≡ true → is_last (next c r).0 ≡ false
      goes-open on = ground (arith, on)

      by_round :
          (is_done on : Bool)
          → (on ≡ true → is_last (next c r).0 ≡ false)
          → NothingAfterLast (run_steps c rounds (next c r).1).0
          → length (run_steps c rounds (next c r).1).0 ≤ length rounds
          → NothingAfterLast
              (yielded_in is_done on r (next c r) (run_steps c rounds (next c r).1)).0
            × (length (yielded_in is_done on r (next c r) (run_steps c rounds (next c r).1)).0
                ≤ suc (length rounds))
      by_round true on opens all few = (tt, omega arith)
      by_round false false opens all few = (tt, omega arith)
      by_round false true opens all few = (
        NothingAfterLast-cons (next c r).0 (run_steps c rounds (next c r).1).0 (opens refl) all,
        omega (arith, few),
      )
