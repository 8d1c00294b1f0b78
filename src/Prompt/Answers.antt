-- ===== src/Prompt/Answers.antt =====
-- What the tool answers to the references of a prompt (prompt/tools.go).
use atlasic.Prelude.{String, Bool, true, false, ◌≡◌, refl, none, some, List, [], ◌∷◌, string_eq}
use atlasic.Prelude.Table.{Table, lookup}
use atlasic.A2a.{FilePart, Message, Part, kind_file_part}
use atlasic.Prelude.Texts.{byte_count}
use atlasic.Prelude.Numerals.{decimal}
use atlasic.Prompt.Contents.{FileData, raw_file, new_file_part_with_bytes}
use atlasic.Prompt.Tools.{
  Encoder, Argument, text, answer, encoded, TaskDataTool, execute, get_full_history,
  history_in_format,
}
use atlasic.Prompt.Formatter.{Formatter, Held, file_data, is_nil, has_references, set_tool_if}
use atlasic.Prompt.References.{Given, Shown}

-- The arguments that a reference to a file asks for.
abbrev pub file_arguments : String → Table String Argument
file_arguments id = ("data_type", text "file") ∷ ("id", text id) ∷ []

abbrev pub history_arguments : Table String Argument
history_arguments = ("data_type", text "full_history") ∷ ("format", text "json") ∷ []

-- The name, the bytes and the MIME type of a file, as the tool gives them for an id. A URI is not
-- among them.
abbrev pub content_of : String → FilePart → Part
content_of id file = record {
  kind = kind_file_part;
  text = "";
  file =
      some (record { uri = ""; bytes = file.bytes; name = file.name; mime_type = file.mime_type });
  content = none;
  metadata =
      ("file_id", id)
      ∷ ("filename", file.name)
      ∷ ("mime_type", file.mime_type)
      ∷ ("size", decimal (byte_count file.bytes))
      ∷ [];
}

-- The builder's tool answers to the id with the file.
abbrev pub Answers : Encoder → Held → String → FilePart → Type 0
Answers encoder held id file =
    (tool : TaskDataTool) × (held ≡ some tool)
    × (execute encoder (file_arguments id) tool ≡ answer (content_of id file))

abbrev pub MessageShown : (String → FilePart → Type 0) → Message → Message → Type 0
MessageShown R msg shown =
    (shown.message_id ≡ msg.message_id) × (shown.role ≡ msg.role) × Shown R msg.parts shown.parts

abbrev pub AllShown : (String → FilePart → Type 0) → List Message → List Message → Type 0
AllShown R [] [] = Unit
AllShown R (msg ∷ messages) (s ∷ shown) = MessageShown R msg s × AllShown R messages shown
AllShown R _ _ = ⊥

pub execute-file :
    (encoder : Encoder) (id : String) (file : FileData) (tool : TaskDataTool)
    → lookup id tool.file_map ≡ some file
    → execute encoder (file_arguments id) tool ≡ answer (raw_file id file)
unfolding execute lookup
execute-file encoder id file tool found = rw found refl

pub execute-file_part :
    (encoder : Encoder) (id : String) (file : FilePart) (tool : TaskDataTool)
    → lookup id tool.file_map ≡ some (file_data file)
    → execute encoder (file_arguments id) tool ≡ answer (content_of id file)
unfolding raw_file new_file_part_with_bytes
execute-file_part encoder id file tool found = execute-file encoder id (file_data file) tool found

history_in_json :
    (encoder : Encoder) (history : List Message)
    → is_nil history ≡ false
    → history_in_format encoder "json" history ≡ encoded (encoder.history_json history)
unfolding history_in_format
history_in_json encoder [] h = cc
history_in_json encoder (msg ∷ messages) h = refl

pub execute-history :
    (encoder : Encoder) (tool : TaskDataTool)
    → is_nil tool.full_history ≡ false
    → execute encoder history_arguments tool ≡ encoded (encoder.history_json tool.full_history)
unfolding execute get_full_history lookup
execute-history encoder tool h = history_in_json encoder tool.full_history h

lookup-not_nil :
    {V : Type 0} (id : String) (m : Table String V) {v : V}
    → lookup id m ≡ some v
    → is_nil m ≡ false
unfolding lookup
lookup-not_nil id [] found = cc
lookup-not_nil id (entry ∷ m) found = refl

-- A reference that was given is answered, since the tool is set when it holds a file.
pub Given-Answers :
    (encoder : Encoder) (test : Bool) (f : Formatter) (held : Held)
    → (has_references f.tool ≡ true → test ≡ true)
    → (id : String) (file : FilePart) → Given f id file
    → Answers encoder (set_tool_if test f.tool held) id file
Given-Answers encoder test f held sets id file (n, same, counted, found) = (
  f.tool,
  rw (sets (rw (lookup-not_nil id f.tool.file_map found) refl)) refl,
  execute-file_part encoder id file f.tool found,
)
