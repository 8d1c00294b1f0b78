-- ===== src/Tests/Runners.antt =====
-- The theorems on the model runner at concrete inputs.
use atlasic.Prelude.{
  refl, sym, ◌≡◌, ℕ, suc, true, false, Option, none, some, List, [], ◌∷◌, string_eq, ◌≤◌, length,
  Bool, ◌==◌, ◌||◌, if◌then◌else◌, Bool-cases, inl, inr, ap, String,
}
use atlasic.Prelude.Exec.{ok}
use atlasic.A2a.{Part, new_text_part, role_agent, new_message, no_options}
use atlasic.Runner.{
  ToolUse, GenerateResponse, tool_use, Setup, Runner, ToolHandler, resolve_tool, next,
}
use atlasic.Runner.Conversation.{next-IsContinued, IsContinued, continues_at}
use atlasic.Runner.Steps.{Round, run_steps, NothingAfterLast, run_steps-NothingAfterLast}
use atlasic.Runner.Ollama.{
  MessagePart, ToolCall, ArgumentCodec, plain_message, convert_message, convert_response,
}
use atlasic.Runner.Ollama.Responses.{
  agent_message, Redecodes, SameCalls, convert_message-convert_response,
}
use atlasic.Tests.Fixtures.{hello}

-- Each text part of the model's messages asks for the tool of that name.
abbrev asks_for : Part → Option ToolUse
asks_for part = some (record { id = "1"; tool_name = part.text; arguments = ""; metadata = [] })

abbrev clock : ToolHandler ℕ
clock asked n = (
  ok (record { id = ""; tool_name = ""; parts = new_text_part "noon" ∷ []; metadata = [] }),
  suc n,
)

abbrev response : GenerateResponse
response = record {
  message =
      new_message "m" role_agent (new_text_part "clock" ∷ new_text_part "map" ∷ []) no_options;
  stop_reason = tool_use;
}

-- A model that asks for two tools, of which one is registered.
abbrev setup : Setup ℕ
setup = record {
  generate = λ s. (ok response, s);
  resolve = λ asked n. resolve_tool (("clock", clock) ∷ []) asked n;
  as_tool_use_part = asks_for;
  new_tool_result_part = λ id name parts. new_text_part name;
  error_text = λ e. "error";
}

abbrev runner : Runner ℕ
runner = record {
  request = record { system = ""; messages = hello ∷ []; options = [] };
  last_step = none;
  world = 0;
}

next-IsContinued_example :
    IsContinued setup
      (continues_at setup runner).0
      (continues_at setup runner).1
      (ok response)
      (next setup runner)
next-IsContinued_example = next-IsContinued setup runner refl

abbrev rounds : List Round
rounds = record { is_done = false; goes_on = true } ∷ record { is_done = true; goes_on = true } ∷ []

run_steps-NothingAfterLast_example :
    NothingAfterLast (run_steps setup rounds runner).0
    × (length (run_steps setup rounds runner).0 ≤ 2)
run_steps-NothingAfterLast_example = run_steps-NothingAfterLast setup rounds runner

-- A codec for arguments without fields, which drops a space.
abbrev is_empty_object : String → Bool
is_empty_object json = json == "{}" || json == "{ }"

abbrev compact_codec : ArgumentCodec
compact_codec = record {
  encode_arguments = λ s. some s;
  decode_arguments = λ s. if is_empty_object s then some "{}" else none;
  decode_tool_call = λ s. none;
}

compact_codec-Redecodes : Redecodes compact_codec (λ n. "call")
compact_codec-Redecodes json arguments h = elim (Bool-cases (is_empty_object json)) [
  | inl empty ↦
      let found : some "{}" ≡ some arguments = rw empty at h in
      let same : "{}" ≡ arguments = cc in ("{}", ap some (sym same), ap some same)
  | inr other ↦ absurd (let refused : none ≡ some arguments = rw other at h in cc)
]

abbrev call : ToolCall
call = record { id = "call_1"; type = "function"; name = "clock"; arguments = "{ }" }

convert_message-convert_response_example :
    (parts : List MessagePart) × (convert_response compact_codec
        (λ n. "call")
        (record (plain_message "assistant" "Wait.") { tool_calls = call ∷ [] })
        0
      ≡ (ok (parts, tool_use), 0))
    × (again : List ToolCall) × (convert_message compact_codec (agent_message parts)
        ≡ ok (record (plain_message "assistant" "Wait.") { tool_calls = again }))
    × SameCalls compact_codec (λ n. "call") (call ∷ []) again
convert_message-convert_response_example =
    convert_message-convert_response compact_codec (λ n. "call") "Wait." (call ∷ []) 0
      compact_codec-Redecodes
      (
        record {
          arguments = "{}";
          has_id = refl;
          has_name = refl;
          is_function = refl;
          decodes = refl;
        },
        tt,
      )
      refl
