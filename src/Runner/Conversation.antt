-- ===== src/Runner/Conversation.antt =====
-- What a step of the runner adds to the conversation (model/runner.go).
use atlasic.Prelude.{
  suc, map, ◌≡◌, refl, ap, subst, inl, inr, Option, none, some, List, [], ◌∷◌, ◌++◌, append_assoc,
  if◌then◌else◌, Bool-cases,
}
use atlasic.Prelude.Exec.{Result, ok, err}
use atlasic.A2a.{Part, Message, other_kind, role_user}
use atlasic.Runner.{
  ToolUse, ToolResult, GenerateResponse, GenerateRequest, Step, Setup, Runner, StepError,
  generate_error, ToolCalls, ToolHandler, is_tool_use, tool_result_message, call_tool,
  call_resolved, after_call, fresh, for_part, call_tools, next, begin, after_generate, begin_after,
}

-- A result for each of the tool uses, in their order, under its id and name.
abbrev pub ResultsFor : List ToolUse → List ToolResult → Type 0
ResultsFor [] [] = Unit
ResultsFor [] (r ∷ results) = ⊥
ResultsFor (u ∷ calls) [] = ⊥
ResultsFor (u ∷ calls) (r ∷ results) =
    (r.id ≡ u.id) × (r.tool_name ≡ u.tool_name) × ResultsFor calls results

module _ {W : Type 0} (c : Setup W) where
  abbrev pub add_use : Option ToolUse → List ToolUse → List ToolUse
  add_use none asked = asked
  add_use (some u) asked = u ∷ asked

  -- The tool uses among the parts of a message.
  abbrev pub tool_uses : List Part → List ToolUse
  tool_uses [] = []
  tool_uses (part ∷ parts) = add_use (c.as_tool_use_part part) (tool_uses parts)

  call_resolved-id :
      (u : ToolUse) (r : Result (ToolHandler W)) (w : W)
      → ((call_resolved c u r w).0.0.id ≡ u.id)
        × ((call_resolved c u r w).0.0.tool_name ≡ u.tool_name)
  call_resolved-id u (err e) w = (refl, refl)
  call_resolved-id u (ok handler) w = answered (handler u w)
    where
      answered :
          (end : Result ToolResult × W)
          → ((after_call c u end.0).0.id ≡ u.id)
            × ((after_call c u end.0).0.tool_name ≡ u.tool_name)
      answered (ok r, w) = (refl, refl)
      answered (err e, w) = (refl, refl)

  call_tool-id :
      (u : ToolUse) (w : W)
      → ((call_tool c u w).0.0.id ≡ u.id) × ((call_tool c u w).0.0.tool_name ≡ u.tool_name)
  unfolding call_tool
  call_tool-id u w = call_resolved-id u (c.resolve u w).0 (c.resolve u w).1

  -- The calls are these tool uses, with a result for each.
  abbrev Matches : List ToolUse → ToolCalls → Type 0
  Matches asked t = (t.calls ≡ asked) × ResultsFor asked t.results

  for_part-Matches :
      (found : Option ToolUse) (asked : List ToolUse) (rest : W → ToolCalls × W) (w : W)
      → ((w : W) → Matches asked (rest w).0)
      → Matches (add_use found asked) (for_part c found rest w).0
  for_part-Matches none asked rest w all = all w
  for_part-Matches (some u) asked rest w all =
      let (calls, results) = all (call_tool c u w).1 in
      let (id, name) = call_tool-id u w in (ap (◌∷◌ u) calls, (id, name, results))

  call_tools-Matches :
      (parts : List Part) (w : W) → Matches (tool_uses parts) (call_tools c parts w).0
  unfolding call_tools
  call_tools-Matches [] w = (refl, tt)
  call_tools-Matches (part ∷ parts) w =
      for_part-Matches (c.as_tool_use_part part) (tool_uses parts) (call_tools c parts) w
        (call_tools-Matches parts)

  abbrev IsFresh : Step → Type 0
  IsFresh step = (step.response ≡ none) × (step.tool_calls ≡ []) × (step.tool_results ≡ [])

  begin-IsFresh : (last : Option Step) (messages : List Message) → IsFresh (begin c last messages).0
  begin-IsFresh none messages = (refl, refl, refl)
  begin-IsFresh (some last) messages = by_response last.response
    where
      by_response : (r : Option GenerateResponse) → IsFresh (begin_after c last r messages).0
      by_response none = (refl, refl, refl)
      by_response (some response) = (refl, refl, refl)

  -- The tool uses that a response asks for.
  abbrev pub asked_by : GenerateResponse → List ToolUse
  asked_by response =
      if is_tool_use response.stop_reason then tool_uses response.message.parts else []

  -- Where the next step begins.
  abbrev pub continues_at : Runner W → Step × List Message
  continues_at r = begin c r.last_step r.request.messages

  -- The user's message with a part for each result, under its id and name and with its parts.
  abbrev pub results_message : List ToolResult → Message
  results_message results = record {
    kind = other_kind "";
    message_id = "";
    context_id = "";
    task_id = "";
    role = role_user;
    parts = map (λ r. c.new_tool_result_part r.id r.tool_name r.parts) results;
    reference_task_ids = [];
    extensions = [];
    metadata = [];
  }

  -- What a step leaves, by what the model returned: on an error the same conversation, for another
  -- attempt; otherwise the response and one message with a result for each tool use.
  abbrev pub IsContinued :
      Step → List Message → Result GenerateResponse → (Step × StepError) × Runner W → Type 0
  IsContinued step messages (err e) ((done, reported), r) =
      (reported ≡ generate_error e)
      × (continues_at r ≡ (fresh c step.index (suc step.attempt), messages))
  IsContinued step messages (ok response) ((done, reported), r) =
      (done.response ≡ some response)
      × (done.tool_calls ≡ asked_by response)
      × ResultsFor (asked_by response) done.tool_results
      × (continues_at r ≡ (
        fresh c (suc step.index) 0,
        messages ++ (response.message ∷ results_message done.tool_results ∷ []),
      ))

  after_generate-IsContinued :
      (step : Step) (result : Result GenerateResponse) (request : GenerateRequest) (w : W)
      → IsFresh step
      → IsContinued step request.messages result (after_generate c step result (request, w))
  unfolding tool_result_message
  after_generate-IsContinued step (err e) request w (no_response, no_calls, no_results) =
      (refl, rw no_response refl)
  after_generate-IsContinued step (ok response) request w (no_response, no_calls, no_results) =
      elim (Bool-cases (is_tool_use response.stop_reason)) [
        | inl tools ↦
            let (calls, results) = call_tools-Matches response.message.parts w in
            rw tools (
              refl,
              calls,
              results,
              ap (λ ms. (fresh c (suc step.index) 0, ms)) (append_assoc request.messages _ _),
            )
        | inr plain ↦ rw plain (
          refl,
          no_calls,
          rw no_results tt,
          ap (λ ms. (fresh c (suc step.index) 0, ms)) (append_assoc request.messages _ _),
        )
      ]

  -- The conversation that the model is called with, as a request.
  abbrev pub request_of : Runner W → GenerateRequest
  request_of r = record (r.request) { messages = (continues_at r).1 }

  -- If the model leaves its request as it was: a step on which the model fails reports its error, and
  -- the next one begins with the same conversation and one more attempt; a step with a response has
  -- exactly one result for each tool use of the response, in order and under its id and name, and the
  -- next one begins with the response and a user's message of these results, a part for each, at
  -- the end of the conversation.
  pub next-IsContinued :
      (r : Runner W)
      → (c.generate (request_of r, r.world)).1.0 ≡ request_of r
      → IsContinued
          (continues_at r).0
          (continues_at r).1
          (c.generate (request_of r, r.world)).0
          (next c r)
  unfolding next
  next-IsContinued r kept =
      let end = c.generate (request_of r, r.world) in
      subst
        (λ ms.
          IsContinued (continues_at r).0 ms end.0 (after_generate c (continues_at r).0 end.0 end.1))
        (ap (λ request. request.messages) kept)
        (after_generate-IsContinued (continues_at r).0 end.0 end.1.0 end.1.1
          (begin-IsFresh r.last_step r.request.messages))
