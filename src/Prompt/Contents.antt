-- ===== src/Prompt/Contents.antt =====
-- What the tool makes of files, parts and messages (prompt/tools.go).
use atlasic.Prelude.{
  String, Bool, true, false, ℕ, ◌+◌, Option, none, some, List, [], ◌∷◌, string_eq, if◌then◌else◌,
}
use atlasic.Prelude.Texts.{joined, byte_count}
use atlasic.Prelude.Numerals.{decimal}
use atlasic.A2a.{
  Kind, kind_text_part, kind_file_part, kind_data_part, FilePart, Part, Message, Artifact,
  role_text, new_text_part, JsonMap,
}

-- `content` is the source's `Data`.
pub record FileData : Type 0 where
  pub filename : String
  pub content : String
  pub mime_type : String

-- `NewFilePartWithBytes` of package a2a.
unfoldable pub new_file_part_with_bytes : String → String → String → Part
new_file_part_with_bytes bytes name mime_type = record {
  kind = kind_file_part;
  text = "";
  file = some (record { uri = ""; bytes = bytes; name = name; mime_type = mime_type });
  content = none;
  metadata = [];
}

abbrev pub with_metadata : JsonMap → Part → Part
with_metadata metadata part = record part { metadata = metadata }

abbrev pub is_text_part : Kind → Bool
is_text_part kind_text_part = true
is_text_part _ = false

unfoldable pub raw_file : String → FileData → Part
unfolding new_file_part_with_bytes
raw_file id file =
    with_metadata
      (("file_id", id)
        ∷ ("filename", file.filename)
        ∷ ("mime_type", file.mime_type)
        ∷ ("size", decimal (byte_count file.content))
        ∷ [])
      (new_file_part_with_bytes file.content file.filename file.mime_type)

-- The texts of the parts that are texts.
unfoldable pub text_of_parts : List Part → String
text_of_parts [] = ""
text_of_parts (part ∷ parts) =
    joined ((if is_text_part part.kind then part.text else "") ∷ text_of_parts parts ∷ [])

unfoldable pub first_text : String → Artifact → List Part → Part
unfolding new_text_part
first_text id artifact [] = new_text_part ""
first_text id artifact (part ∷ parts) =
    let rest = first_text id artifact parts in
    if is_text_part part.kind
    then with_metadata (("artifact_id", id) ∷ ("name", artifact.name) ∷ [])
        (new_text_part part.text)
    else rest

abbrev pub name_line : Option FilePart → String
name_line none = ""
name_line (some file) = joined ("📎 **File**: " ∷ file.name ∷ "\n\n" ∷ [])

abbrev pub part_in_markdown : Kind → Part → String
part_in_markdown kind_text_part part = joined (part.text ∷ "\n\n" ∷ [])
part_in_markdown kind_file_part part = name_line part.file
part_in_markdown kind_data_part part = "📊 **Data**: [structured data]\n\n"
part_in_markdown _ part = ""

unfoldable pub parts_in_markdown : List Part → String
parts_in_markdown [] = ""
parts_in_markdown (part ∷ parts) =
    joined (part_in_markdown part.kind part ∷ parts_in_markdown parts ∷ [])

unfoldable pub history_in_markdown : ℕ → List Message → String
unfolding parts_in_markdown role_text
history_in_markdown i [] = ""
history_in_markdown i (msg ∷ messages) = joined (
    "## Message "
    ∷ decimal (i + 1)
    ∷ " ("
    ∷ role_text msg.role
    ∷ ")\n\n"
    ∷ parts_in_markdown msg.parts
    ∷ history_in_markdown (i + 1) messages
    ∷ [])
