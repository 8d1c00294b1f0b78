-- ===== src/Runner/Ollama.antt =====
-- The messages of the Ollama provider (model/ollama/model.go): a conversation in its form, and its
-- response as parts.
--
-- A part is its text beside what Runner/Parts reads of it, and a map of arguments is its JSON. What
-- package encoding/json makes of texts is a parameter, generated ids come from a function of a
-- counter, and the call of the API is left out.
pub mod Responses
use atlasic.Prelude.{
  ℕ, suc, String, Bool, true, false, not, ◌&&◌, ◌||◌, Option, none, some, List, [], ◌∷◌, ◌++◌, ◌==◌,
  string_eq, if◌then◌else◌,
}
use atlasic.Prelude.Table.{Table, lookup}
use atlasic.Prelude.Texts.{joined}
use atlasic.Prelude.Exec.{Exec, Result, ok, err, Error, wrap, invalid, pure, raise, ◌>>=◌}
use atlasic.A2a.{Kind, kind_text_part, Part, Role, role_user, role_agent, other_role}
use atlasic.Runner.Parts.{
  Any, DataPart, Use, UseResult, as_text, or_empty, new_tool_use_part, get_tool_use_parts,
  get_tool_result_parts,
}
use atlasic.Runner.{StopReason, tool_use, end_turn}

pub record MessagePart : Type 0 where
  pub body : DataPart
  pub text : String

pub record ModelMessage : Type 0 where
  pub message_id : String
  pub role : Role
  pub parts : List MessagePart
  pub metadata : Table String Any

pub record ToolCall : Type 0 where
  pub id : String
  pub type : String
  pub name : String
  pub arguments : String

-- `Message` of package ollama.
pub record ChatMessage : Type 0 where
  pub role : String
  pub content : String
  pub name : String
  pub tool_call_id : String
  pub tool_calls : List ToolCall

-- `decode_tool_call` is the name and the arguments of a content that decodes as a tool call.
pub record ArgumentCodec : Type 0 where
  pub encode_arguments : String → Option String
  pub decode_arguments : String → Option String
  pub decode_tool_call : String → Option (String × String)

abbrev pub bodies : List MessagePart → List DataPart
bodies [] = []
bodies (part ∷ parts) = part.body ∷ bodies parts

abbrev pub text_or_nothing : Kind → String → String
text_or_nothing kind_text_part text = text
text_or_nothing _ text = ""

unfoldable pub text_content : List MessagePart → String
text_content [] = ""
text_content (part ∷ parts) =
    joined (text_or_nothing part.body.kind part.text ∷ text_content parts ∷ [])

unfoldable pub result_content : List Part → String
result_content [] = ""
result_content (part ∷ parts) =
    joined (text_or_nothing part.kind part.text ∷ result_content parts ∷ [])

abbrev pub plain_message : String → String → ChatMessage
plain_message role content = record {
  role = role;
  content = content;
  name = "";
  tool_call_id = "";
  tool_calls = [];
}

abbrev pub result_message : UseResult → ChatMessage
result_message result = record (plain_message "tool" (result_content result.content)) {
  name = result.tool_name;
  tool_call_id = result.id;
}

-- The role of a message with the id of a call and a tool's name in its metadata.
abbrev pub tool_message : Table String Any → String → ChatMessage
tool_message metadata content = record (plain_message "tool" content) {
  name = or_empty (as_text (lookup "tool_name" metadata));
  tool_call_id = or_empty (as_text (lookup "tool_call_id" metadata));
}

abbrev pub use_part : String → String → String → MessagePart
use_part id name arguments = record { body = new_tool_use_part id name arguments; text = "" }

abbrev pub text_part : String → MessagePart
text_part text = record {
  body = record { kind = kind_text_part; content = []; metadata = [] };
  text = text;
}

abbrev pub is_call_content : String → Option (String × String) → Bool
is_call_content content none = false
is_call_content content (some (name, arguments)) = not (content == "") && not (name == "")

abbrev pub some_calls : List ToolCall → Bool
some_calls [] = false
some_calls (call ∷ calls) = true

module _ (codec : ArgumentCodec) where
  abbrev pub call_with : Use → Option String → Result ToolCall
  call_with asked none = err (wrap invalid)
  call_with asked (some arguments) =
      ok
        (record { id = asked.id; type = "function"; name = asked.tool_name; arguments = arguments })

  abbrev pub call_and : Result ToolCall → Result (List ToolCall) → Result (List ToolCall)
  call_and (err e) rest = err e
  call_and (ok call) (err e) = err e
  call_and (ok call) (ok calls) = ok (call ∷ calls)

  unfoldable pub tool_calls_of : List Use → Result (List ToolCall)
  tool_calls_of [] = ok []
  tool_calls_of (asked ∷ uses) =
      call_and (call_with asked (codec.encode_arguments asked.arguments)) (tool_calls_of uses)

  abbrev pub assistant_message : String → Result (List ToolCall) → Result ChatMessage
  assistant_message content (err e) = err e
  assistant_message content (ok calls) =
      ok (record (plain_message "assistant" content) { tool_calls = calls })

  -- A message without results, by its role and its tool uses.
  abbrev pub convert_by_role : Role → List Use → ModelMessage → Result ChatMessage
  convert_by_role role_user uses m = ok (plain_message "user" (text_content m.parts))
  convert_by_role role_agent [] m = ok (plain_message "assistant" (text_content m.parts))
  convert_by_role role_agent (asked ∷ uses) m =
      assistant_message (text_content m.parts) (tool_calls_of (asked ∷ uses))
  convert_by_role (other_role role) uses m =
      if role == "tool" then ok (tool_message m.metadata (text_content m.parts)) else err invalid

  abbrev pub convert_by_results : List UseResult → ModelMessage → Result ChatMessage
  convert_by_results [] m = convert_by_role m.role (get_tool_use_parts (bodies m.parts)) m
  convert_by_results (result ∷ results) m = ok (result_message result)

  unfoldable pub convert_message : ModelMessage → Result ChatMessage
  unfolding text_content result_content tool_calls_of
  convert_message m = convert_by_results (get_tool_result_parts (bodies m.parts)) m

  module _ (random_id : ℕ → String) where
    unfoldable pub generate_random_id : Exec ℕ String
    generate_random_id n = (ok (random_id n), suc n)

    abbrev pub id_or_random : String → Exec ℕ String
    id_or_random id n = if id == "" then generate_random_id n else (ok id, n)

    abbrev pub decoded : Option String → Exec ℕ String
    decoded none = raise (wrap invalid)
    decoded (some arguments) = pure arguments

    unfoldable pub parts_of_calls : List ToolCall → Exec ℕ (List MessagePart)
    unfolding generate_random_id
    parts_of_calls [] = pure []
    parts_of_calls (call ∷ calls) = do
      arguments ← decoded (codec.decode_arguments call.arguments)
      id ← id_or_random call.id
      rest ← parts_of_calls calls
      pure (use_part id call.name arguments ∷ rest)

    abbrev pub part_of_call : String → Option (String × String) → Exec ℕ (List MessagePart)
    part_of_call content none = pure (text_part content ∷ [])
    part_of_call content (some (name, arguments)) =
        let call = (do
          decoded_arguments ← decoded (codec.decode_arguments arguments)
          id ← generate_random_id
          pure (use_part id name decoded_arguments ∷ [])) in
        if name == "" then pure (text_part content ∷ []) else call

    -- A content that is a tool call in JSON is one.
    unfoldable pub parts_of_content : String → Exec ℕ (List MessagePart)
    unfolding generate_random_id
    parts_of_content content =
        if content == "" then pure [] else part_of_call content (codec.decode_tool_call content)

    -- The response's parts and why the model stopped. Its message is of the agent, and it says
    -- nothing of the tokens that were used.
    unfoldable pub convert_response : ChatMessage → Exec ℕ (List MessagePart × StopReason)
    unfolding parts_of_content parts_of_calls
    convert_response m = do
      first ← parts_of_content m.content
      rest ← parts_of_calls m.tool_calls
      pure (
        first ++ rest,
        if is_call_content m.content (codec.decode_tool_call m.content) || some_calls m.tool_calls
            then tool_use
            else end_turn,
      )
