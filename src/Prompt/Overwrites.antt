-- ===== src/Prompt/Overwrites.antt =====
-- What a builder's tool answers after several blocks, and where the tool is not set at all
-- (prompt/builder.go, prompt/formatter.go).
use atlasic.Prelude.{
  String, false, ◌≡◌, refl, Option, none, some, List, [], ◌∷◌, ◌++◌, ◌==◌, string_eq, Bool-cases,
  Option-cases, inl, inr, eq_iff, sym, subst, ap,
}
use atlasic.Prelude.Table.{lookup, insert}
use atlasic.Prelude.Numerals.{pad_zeros, decimal}
use atlasic.Prelude.Texts.{joined, concat}
use text.Mathlib.TextLemmas as Text
use text.Mathlib.TextLemmas.{nil-append}
use atlasic.A2a.{kind_file_part, FilePart, Part, Message, role_text}
use atlasic.Prompt.Options.{Config}
use atlasic.Prompt.Tools.{Encoder, execute, refused, file_missing, TaskDataTool, add_file}
use atlasic.Prompt.Formatter.{Held, id_of, format_message_for_system, new_formatter}
use atlasic.Prompt.Builder.{
  ContentBlock, message_block, format_block_for_system, text_of_blocks, then_text, proceed_text,
}
use atlasic.Prompt.References.{reference_text, after_file, after_file-Given}
use atlasic.Prompt.Answers.{Answers, file_arguments, execute-file_part}

some_pair :
    {s t : String} {held mid : Held}
    → ◌≡◌ {A = Option (String × Held)} (some (s, held)) (some (t, mid))
    → (s ≡ t) × (held ≡ mid)
some_pair h = (cc, cc)

begun :
    (t rest line : String) {s : String}
    → joined (t ∷ rest ∷ []) ≡ s
    → joined (t ∷ concat rest line ∷ []) ≡ concat s line
begun t rest line h = rw (← h) (simp (Text.append_assoc, Text.append-nil))

append_step :
    (t line : String) (r q : Option (String × Held)) {s : String} {mid after : Held}
    → then_text t r ≡ some (s, mid)
    → ((rest : String) → r ≡ some (rest, mid) → q ≡ some (concat rest line, after))
    → then_text t q ≡ some (concat s line, after)
append_step t line none q h f = cc
append_step t line (some (rest, last)) q {s} {mid} {after} h f =
    let same = some_pair h in
    rw (f rest (ap (λ held. some (rest, held)) same.1))
      (ap (λ whole. some (whole, after)) (begun t rest line same.0))

-- A system prompt of more blocks is the texts one behind the other, each with the tool before.
pub text_of_blocks-append :
    (blocks : List ContentBlock) (block : ContentBlock) (held : Held) {s line : String}
    {mid after : Held}
    → text_of_blocks blocks held ≡ some (s, mid)
    → format_block_for_system block mid ≡ some (line, after)
    → text_of_blocks (blocks ++ block ∷ []) held ≡ some (concat s line, after)
unfolding text_of_blocks
text_of_blocks-append [] block held {s} {line} {mid} {after} first last =
    let same = some_pair first in
    rw (subst (λ h. format_block_for_system block h ≡ some (line, after)) (sym same.1) last)
      (ap (λ whole. some (whole, after)) (rw (← same.0) (simp (Text.append-nil, nil-append))))
text_of_blocks-append (b ∷ blocks) block held {s} {line} {mid} {after} first last =
    elim (Option-cases (format_block_for_system b held)) [
      | inl panics ↦ absurd (cc (first, panics))
      | inr (r, made) ↦ rw made (
          append_step r.0 line (text_of_blocks blocks r.1)
            (text_of_blocks (blocks ++ block ∷ []) r.1)
            (subst (λ o. proceed_text (text_of_blocks blocks) o ≡ some (s, mid)) made first)
            (λ rest done. text_of_blocks-append blocks block r.1 done last))
    ]

execute-missing :
    (encoder : Encoder) (id : String) (tool : TaskDataTool)
    → lookup id tool.file_map ≡ none
    → execute encoder (file_arguments id) tool ≡ refused file_missing
unfolding execute lookup
execute-missing encoder id tool missing = rw missing refl

-- The line of a message of which the only part is a file.
abbrev pub line_of_file : Message → FilePart → String
line_of_file msg file =
    joined
      ("**" ∷ role_text msg.role ∷ " Message**: " ∷ reference_text file.name "id_001" ∷ "\n" ∷ [])

module _ (cfg : Config) (msg : Message) (part : Part) (file : FilePart)
    (by_reference : cfg.include_file_parts ≡ false) (only : msg.parts ≡ part ∷ [])
    (is_file : part.kind ≡ kind_file_part) (has_file : part.file ≡ some file) where
  abbrev last_tool : TaskDataTool
  last_tool = (after_file file new_formatter).tool

  file_message-line :
      (held : Held)
      → format_message_for_system cfg msg held ≡ some (line_of_file msg file, some last_tool)
  unfolding format_message_for_system new_formatter insert pad_zeros decimal
  file_message-line held = simp (only, by_reference, is_file, has_file, nil-append, Text.append-nil)

  only_file : (id : String) → (id_of 1 == id) ≡ false → lookup id last_tool.file_map ≡ none
  unfolding new_formatter insert lookup add_file
  only_file id unknown = rw unknown refl

  -- If a message with a single part, a file by reference, is written after blocks that do
  -- not panic, the prompt is theirs with one line for it, which names the first id of all;
  -- the builder's tool answers to this id with the name, bytes and type of the message's file, and answers to no other
  -- id with a file.
  pub system_prompt-last_file :
      (encoder : Encoder) (blocks : List ContentBlock) (held : Held) {s : String} {mid : Held}
      → text_of_blocks blocks held ≡ some (s, mid)
      → (after : Held) × (text_of_blocks (blocks ++ message_block msg cfg ∷ []) held
          ≡ some (concat s (line_of_file msg file), after))
        × Answers encoder after "id_001" file
        × ((id : String) (other : FilePart) → Answers encoder after id other → id ≡ "id_001")
  unfolding format_block_for_system new_formatter pad_zeros decimal
  system_prompt-last_file encoder blocks held first = (
    some last_tool,
    text_of_blocks-append blocks (message_block msg cfg) held first (file_message-line _),
    (
      last_tool,
      refl,
      execute-file_part encoder (id_of 1) file last_tool (after_file-Given file new_formatter).3,
    ),
    λ id other (tool, same, answered). elim (Bool-cases (id_of 1 == id)) [
      | inl known ↦ sym ((eq_iff (id_of 1) id).0 known)
      | inr unknown ↦
          absurd (cc (answered, same, execute-missing encoder id last_tool (only_file id unknown)))
    ],
  )
