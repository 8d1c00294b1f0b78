-- ===== src/Runner.antt =====
-- The runner that alternates between a language model and its tools (model/runner.go), with the
-- tools that are registered by name (model/tool_resolver.go).
--
-- `W` is what models and tools read and write. A model gets the request itself, so that it may change
-- it. How a part carries a tool use or its result is a parameter, and so is the text of an error.
pub mod Hooks
pub mod Conversation
pub mod Steps
pub mod Parts
pub mod Ollama
use atlasic.Prelude.{
  ℕ, suc, ◌+◌, String, Bool, true, false, Option, none, some, List, [], ◌∷◌, ◌++◌, ◌==◌, string_eq,
  map, if◌then◌else◌,
}
use atlasic.Prelude.Texts.{concat}
use atlasic.Prelude.Table.{Table, lookup, insert}
use atlasic.Prelude.Exec.{Exec, Result, ok, err, Error, invalid, tool_not_registered}
use atlasic.A2a.{Part, Message, role_user, other_kind, new_text_part, JsonMap}

pub record ToolUse : Type 0 where
  pub id : String
  pub tool_name : String
  pub arguments : String
  pub metadata : JsonMap

pub record ToolResult : Type 0 where
  pub id : String
  pub tool_name : String
  pub parts : List Part
  pub metadata : JsonMap

pub data StopReason : Type 0 where
  max_tokens : StopReason
  stop_word : StopReason
  tool_use : StopReason
  end_turn : StopReason
  stop_error : StopReason

pub record GenerateResponse : Type 0 where
  pub message : Message
  pub stop_reason : StopReason

-- The conversation, and what else the request has as text.
pub record GenerateRequest : Type 0 where
  pub system : String
  pub messages : List Message
  pub options : JsonMap

pub record Step : Type 0 where
  pub index : ℕ
  pub attempt : ℕ
  pub response : Option GenerateResponse
  pub tool_calls : List ToolUse
  pub tool_results : List ToolResult

abbrev pub Generate : Type 0 → Type 0
Generate W = Exec (GenerateRequest × W) GenerateResponse

abbrev pub ToolHandler : Type 0 → Type 0
ToolHandler W = ToolUse → Exec W ToolResult

-- What `NewRunner` is given, and the parameters.
pub record Setup (W : Type 0) : Type 0 where
  pub generate : Generate W
  pub resolve : ToolUse → Exec W (ToolHandler W)
  pub as_tool_use_part : Part → Option ToolUse
  pub new_tool_result_part : String → String → List Part → Part
  pub error_text : Error → String

pub record Runner (W : Type 0) : Type 0 where
  pub request : GenerateRequest
  pub last_step : Option Step
  pub world : W

-- `Next` returns no error, that of the model, or those of the tools.
pub data StepError : Type 0 where
  no_error : StepError
  generate_error : Error → StepError
  tool_use_errors : List Error → StepError

abbrev pub errors_or_none : List Error → StepError
errors_or_none [] = no_error
errors_or_none (e ∷ errs) = tool_use_errors (e ∷ errs)

-- The tool calls of a message, their results, and the errors among them.
pub record ToolCalls : Type 0 where
  pub calls : List ToolUse
  pub results : List ToolResult
  pub errors : List Error

abbrev pub no_calls : ToolCalls
no_calls = record { calls = []; results = []; errors = [] }

abbrev pub with_call : ToolUse → ToolResult → List Error → ToolCalls → ToolCalls
with_call asked result errs later = record {
  calls = asked ∷ later.calls;
  results = result ∷ later.results;
  errors = errs ++ later.errors;
}

abbrev pub is_tool_use : StopReason → Bool
is_tool_use tool_use = true
is_tool_use _ = false

module _ {W : Type 0} (c : Setup W) where
  -- The message with the results of a step's tools.
  unfoldable pub tool_result_message : List ToolResult → Message
  tool_result_message results = record {
    kind = other_kind "";
    message_id = "";
    context_id = "";
    task_id = "";
    role = role_user;
    parts = map (λ r. c.new_tool_result_part r.id r.tool_name r.parts) results;
    reference_task_ids = [];
    extensions = [];
    metadata = [];
  }

  abbrev pub fresh : ℕ → ℕ → Step
  fresh index attempt = record {
    index = index;
    attempt = attempt;
    response = none;
    tool_calls = [];
    tool_results = [];
  }

  -- The step to come and the conversation so far, from the last step.
  abbrev pub begin_after : Step → Option GenerateResponse → List Message → Step × List Message
  begin_after last none messages = (fresh last.index (suc last.attempt), messages)
  begin_after last (some response) messages = (
    fresh (suc last.index) 0,
    (messages ++ (response.message ∷ [])) ++ (tool_result_message last.tool_results ∷ []),
  )

  abbrev pub begin : Option Step → List Message → Step × List Message
  begin none messages = (fresh 0 0, messages)
  begin (some last) messages = begin_after last last.response messages

  abbrev pub failed_result : ToolUse → String → ToolResult
  failed_result asked explanation = record {
    id = asked.id;
    tool_name = asked.tool_name;
    parts = new_text_part explanation ∷ [];
    metadata = [];
  }

  abbrev pub for_use : ToolUse → ToolResult → ToolResult
  for_use asked r = record r { id = asked.id; tool_name = asked.tool_name }

  abbrev pub cannot_call : ToolUse → Error → ToolResult
  cannot_call asked e =
      failed_result asked
        (concat "can not call tool " (concat asked.tool_name (concat ": " (c.error_text e))))

  abbrev pub call_failed : ToolUse → Error → ToolResult
  call_failed asked e =
      failed_result asked
        (concat "tool " (concat asked.tool_name (concat " call failed: " (c.error_text e))))

  abbrev pub after_call : ToolUse → Result ToolResult → ToolResult × List Error
  after_call asked (ok r) = (for_use asked r, [])
  after_call asked (err e) = (call_failed asked e, e ∷ [])

  abbrev pub call_resolved : ToolUse → Result (ToolHandler W) → W → (ToolResult × List Error) × W
  call_resolved asked (err e) w = ((cannot_call asked e, e ∷ []), w)
  call_resolved asked (ok handler) w = let (r, w') = handler asked w in (after_call asked r, w')

  unfoldable pub call_tool : ToolUse → W → (ToolResult × List Error) × W
  call_tool asked w = let (r, w') = c.resolve asked w in call_resolved asked r w'

  -- A part that asks for a tool, and then the rest.
  abbrev pub for_part : Option ToolUse → (W → ToolCalls × W) → W → ToolCalls × W
  for_part none rest w = rest w
  for_part (some asked) rest w =
      let ((result, errs), w') = call_tool asked w in
      let (later, w'') = rest w' in (with_call asked result errs later, w'')

  -- The loop over the parts of the model's message.
  unfoldable pub call_tools : List Part → W → ToolCalls × W
  call_tools [] w = (no_calls, w)
  call_tools (part ∷ parts) w = for_part (c.as_tool_use_part part) (call_tools parts) w

  abbrev pub ended : GenerateRequest → Step → StepError → W → (Step × StepError) × Runner W
  ended request step e w =
      ((step, e), record { request = request; last_step = some step; world = w })

  abbrev pub with_tools :
      GenerateRequest → Step → GenerateResponse → W → (Step × StepError) × Runner W
  with_tools request step response w =
      let (tools, w') = call_tools response.message.parts w in
      let step' = record step {
        response = some response;
        tool_calls = tools.calls;
        tool_results = tools.results;
      } in
      ended request step' (errors_or_none tools.errors) w'

  abbrev pub after_generate :
      Step → Result GenerateResponse → GenerateRequest × W → (Step × StepError) × Runner W
  after_generate step (err e) (request, w) = ended request step (generate_error e) w
  after_generate step (ok response) (request, w) =
      let plain = ended request (record step { response = some response }) no_error w in
      let tools = with_tools request step response w in
      if is_tool_use response.stop_reason then tools else plain

  unfoldable pub next : Runner W → (Step × StepError) × Runner W
  unfolding call_tools tool_result_message
  next r =
      let (step, messages) = begin r.last_step r.request.messages in
      let request = record (r.request) { messages = messages } in
      let (result, end) = c.generate (request, r.world) in after_generate step result end

-- `RegisterTool`, which panics on an empty name and on one that is taken, and `Resolve`.
abbrev pub Tools : Type 0 → Type 0
Tools W = Table String (ToolHandler W)

abbrev pub register_new :
    {W : Type 0} → String → ToolHandler W → Tools W → Option (ToolHandler W) → Result (Tools W)
register_new name handler tools none = ok (insert name handler tools)
register_new name handler tools (some taken) = err invalid

unfoldable pub register_tool : {W : Type 0} → String → ToolHandler W → Tools W → Result (Tools W)
register_tool name handler tools =
    if name == "" then err invalid else register_new name handler tools (lookup name tools)

abbrev pub found_tool : {W : Type 0} → Option (ToolHandler W) → Result (ToolHandler W)
found_tool none = err tool_not_registered
found_tool (some handler) = ok handler

unfoldable pub resolve_tool : {W : Type 0} → Tools W → ToolUse → Exec W (ToolHandler W)
resolve_tool tools asked w = (found_tool (lookup asked.tool_name tools), w)
