-- ===== src/Runner/Ollama/Responses.antt =====
-- A response of Ollama, read and sent back as the next turn of the conversation
-- (model/ollama/model.go).
use package.text.Mathlib.TextLemmas.{nil-append, append-nil}
use atlasic.Prelude.{
  ℕ, String, false, ◌≡◌, refl, ap, sym, ◌∙◌, none, some, List, [], ◌∷◌, ◌==◌, string_eq,
  if◌then◌else◌, Bool-cases, eq_iff, inl, inr,
}
use atlasic.Prelude.Exec.{ok}
use atlasic.A2a.{role_agent}
use atlasic.Runner.{tool_use, end_turn}
use atlasic.Runner.Parts.{
  Use, UseResult, as_tool_use_part, as_tool_result_part, new_tool_use_part, get_tool_use_parts,
  get_tool_result_parts, as_tool_use_part-new_tool_use_part,
}
use atlasic.Runner.Ollama.{
  MessagePart, ModelMessage, ToolCall, ArgumentCodec, bodies, text_content, plain_message,
  result_message, tool_calls_of, convert_message, convert_response, parts_of_calls, text_part,
  use_part, some_calls, convert_by_role,
}

-- Of a message with several results, only the first one is sent.
pub convert_message-first_result :
    (codec : ArgumentCodec) (m : ModelMessage) (result : UseResult) (others : List UseResult)
    → get_tool_result_parts (bodies m.parts) ≡ result ∷ others
    → convert_message codec m ≡ ok (result_message result)
unfolding convert_message
convert_message-first_result codec m result others found = rw found refl

-- The agent's message with the parts of a response.
abbrev pub agent_message : List MessagePart → ModelMessage
agent_message parts = record {
  message_id = "ollama-response";
  role = role_agent;
  parts = parts;
  metadata = [];
}

module _ (codec : ArgumentCodec) (random_id : ℕ → String) where
  -- What was decoded can be encoded, to a text that decodes to it again.
  abbrev pub Redecodes : Type 0
  Redecodes =
      (json arguments : String)
      → codec.decode_arguments json ≡ some arguments
      → (again : String) × (codec.encode_arguments arguments ≡ some again)
        × (codec.decode_arguments again ≡ some arguments)

  -- The same calls, with arguments that decode to the same.
  abbrev pub SameCalls : List ToolCall → List ToolCall → Type 0
  SameCalls [] [] = Unit
  SameCalls (call ∷ calls) (other ∷ others) =
      (other.id ≡ call.id)
      × (other.type ≡ call.type)
      × (other.name ≡ call.name)
      × (codec.decode_arguments other.arguments ≡ codec.decode_arguments call.arguments)
      × SameCalls calls others
  SameCalls _ _ = ⊥

  -- A call with an id and a name, of which the arguments decode.
  pub record IsSent (call : ToolCall) : Type 0 where
    pub arguments : String
    pub has_id : (call.id == "") ≡ false
    pub has_name : (call.name == "") ≡ false
    pub is_function : call.type ≡ "function"
    pub decodes : codec.decode_arguments call.arguments ≡ some arguments

  abbrev pub AllSent : List ToolCall → Type 0
  AllSent [] = Unit
  AllSent (call ∷ calls) = IsSent call × AllSent calls

  -- The parts hold just these calls.
  record HoldsCalls (calls : List ToolCall) (parts : List MessagePart) : Type 0 where
    uses : List Use
    found_uses : get_tool_use_parts (bodies parts) ≡ uses
    no_results : get_tool_result_parts (bodies parts) ≡ []
    no_text : text_content parts ≡ ""
    again : List ToolCall
    sent_again : tool_calls_of codec uses ≡ ok again
    same : SameCalls calls again

  one-held :
      (call : ToolCall) (calls : List ToolCall) (parts : List MessagePart) (redecodes : Redecodes)
      (sent : IsSent call)
      → HoldsCalls calls parts
      → HoldsCalls (call ∷ calls) (use_part call.id call.name sent.arguments ∷ parts)
  unfolding get_tool_use_parts get_tool_result_parts text_content tool_calls_of new_tool_use_part
  one-held call calls parts redecodes sent h =
      let (json, encoded, decoded) = redecodes call.arguments sent.arguments sent.decodes in
      let read =
        as_tool_use_part-new_tool_use_part call.id call.name sent.arguments sent.has_name in
      record {
        uses = record { id = call.id; tool_name = call.name; arguments = sent.arguments } ∷ h.uses;
        found_uses = rw (read.0, h.found_uses) refl;
        no_results = rw (read.1, h.no_results) refl;
        no_text = simp (h.no_text, nil-append);
        again = record call { type = "function"; arguments = json } ∷ h.again;
        sent_again = rw (encoded, h.sent_again) refl;
        same = (refl, sym sent.is_function, refl, decoded ∙ sym sent.decodes, h.same);
      }

  calls-held :
      Redecodes
      → (calls : List ToolCall) (n : ℕ) → AllSent calls
      → (parts : List MessagePart) × (parts_of_calls codec random_id calls n ≡ (ok parts, n))
        × HoldsCalls calls parts
  unfolding parts_of_calls get_tool_use_parts get_tool_result_parts text_content tool_calls_of
  calls-held again [] n h = (
    [],
    refl,
    record {
      uses = [];
      found_uses = refl;
      no_results = refl;
      no_text = refl;
      again = [];
      sent_again = refl;
      same = tt;
    },
  )
  calls-held again (call ∷ calls) n h =
      let (parts, made, held) = calls-held again calls n h.1 in
      (
        use_part call.id call.name h.0.arguments ∷ parts,
        simp (h.0.decodes, h.0.has_id, made),
        one-held call calls parts again h.0 held,
      )

  by_role :
      (uses : List Use) (m : ModelMessage) (content : String) (calls : List ToolCall)
      → text_content m.parts ≡ content
      → tool_calls_of codec uses ≡ ok calls
      → convert_by_role codec role_agent uses m
        ≡ ok (record (plain_message "assistant" content) { tool_calls = calls })
  unfolding tool_calls_of
  by_role [] m content calls text same =
      let none_left : [] ≡ calls = cc in
      rw text
        (ap (λ cs. ok (record (plain_message "assistant" content) { tool_calls = cs })) none_left)
  by_role (asked ∷ uses) m content calls text same = rw (text, same) refl

  sent_back :
      (parts : List MessagePart) (uses : List Use) (content : String) (calls : List ToolCall)
      → get_tool_result_parts (bodies parts) ≡ []
      → get_tool_use_parts (bodies parts) ≡ uses
      → text_content parts ≡ content
      → tool_calls_of codec uses ≡ ok calls
      → convert_message codec (agent_message parts)
        ≡ ok (record (plain_message "assistant" content) { tool_calls = calls })
  unfolding convert_message
  sent_back parts uses content calls results found text same =
      rw (results, found) (by_role uses (agent_message parts) content calls text same)

  -- If decoded arguments encode to what decodes to them again: a response whose calls are functions
  -- with an id, a name and arguments that decode, and whose content is no tool call, is read
  -- with the stop reason "tool_use" where it has calls and "end_turn" where it has none, and
  -- its parts, sent back in an agent's message, are its content and its calls again, with arguments
  -- that decode to the same.
  pub convert_message-convert_response :
      (content : String) (calls : List ToolCall) (n : ℕ)
      → Redecodes
      → AllSent calls
      → codec.decode_tool_call content ≡ none
      → (parts : List MessagePart) × (convert_response codec random_id
            (record (plain_message "assistant" content) { tool_calls = calls })
            n
          ≡ (ok (parts, if some_calls calls then tool_use else end_turn), n))
        × (again : List ToolCall) × (convert_message codec (agent_message parts)
            ≡ ok (record (plain_message "assistant" content) { tool_calls = again }))
        × SameCalls calls again
  unfolding convert_response get_tool_use_parts get_tool_result_parts as_tool_use_part
      as_tool_result_part text_content
  convert_message-convert_response content calls n again sent plain =
      let (parts, made, held) = calls-held again calls n sent in
      elim (Bool-cases (content == "")) [
        | inl empty ↦ (
          parts,
          simp (empty, plain, made),
          held.again,
          sent_back parts held.uses content held.again held.no_results held.found_uses
              (held.no_text ∙ sym ((eq_iff content "").0 empty)) held.sent_again,
          held.same,
        )
        | inr filled ↦ (
          text_part content ∷ parts,
          simp (filled, plain, made),
          held.again,
          sent_back (text_part content ∷ parts) held.uses content held.again held.no_results
              held.found_uses (simp (held.no_text, append-nil)) held.sent_again,
          held.same,
        )
      ]
