-- ===== src/Prompt/CutHistory.antt =====
-- A cut history in a system prompt, and the tool that the prompt names for the rest
-- (`formatTaskForSystem` of prompt/formatter.go).
use atlasic.Prelude.{
  ltb, String, Bool, true, false, ℕ, ◌+◌, ◌<◌, ◌≡◌, refl, some, List, [], ◌∷◌, length, drop, suc,
  zero, arith, if◌then◌else◌,
}
use atlasic.Prelude.Texts.{joined}
use atlasic.Prelude.Numerals.{decimal}
use atlasic.A2a.{
  Kind, kind_text_part, kind_file_part, kind_data_part, kind_message, kind_task, kind_status_update,
  kind_artifact_update, other_kind, Part, Message, Task, role_text,
}
use atlasic.Prompt.Options.{Config}
use atlasic.Prompt.Tools.{set_full_history, set_task_detail, new_task_data_tool}
use atlasic.Prompt.Formatter.{
  Formatter, Held, write_part, write_parts, format_message_content, task_formatter,
  start_of_history,
}
use atlasic.Prompt.SystemPrompt.{
  write_messages, note_of_cut, task_information, current_status, format_task_for_system,
}
use atlasic.Prompt.Histories.{not-nil}
use atlasic.Prompt.Notices.{limit_of, history_limit_lem}

-- What a model is told of a history that is cut.
abbrev pub note : ℕ → ℕ → String
note limit count = joined (
    "(Showing last "
    ∷ decimal limit
    ∷ " of "
    ∷ decimal count
    ∷ " messages - use `get_task_data` with data_type=\"full_history\" for complete history)\n\n"
    ∷ [])

abbrev pub IsNoFile : Kind → Type 0
IsNoFile kind_file_part = ⊥
IsNoFile _ = Unit

abbrev pub HaveNoFile : List Part → Type 0
HaveNoFile [] = Unit
HaveNoFile (part ∷ parts) = IsNoFile part.kind × HaveNoFile parts

abbrev pub NoneHasFile : List Message → Type 0
NoneHasFile [] = Unit
NoneHasFile (msg ∷ messages) = HaveNoFile msg.parts × NoneHasFile messages

NoneHasFile-drop :
    (n : ℕ) (messages : List Message) → NoneHasFile messages → NoneHasFile (drop n messages)
NoneHasFile-drop zero messages h = h
NoneHasFile-drop (suc n) [] h = h
NoneHasFile-drop (suc n) (msg ∷ messages) h = NoneHasFile-drop n messages h.1

module _ (cfg : Config) where
  write_part-kept :
      (kind : Kind) (part : Part) (f : Formatter)
      → IsNoFile kind
      → (s : String) × (write_part cfg kind part f ≡ some (s, f))
  write_part-kept kind_text_part part f h = (part.text, refl)
  write_part-kept kind_file_part part f h = absurd h
  write_part-kept kind_data_part part f h = (_, refl)
  write_part-kept kind_message part f h = ("", refl)
  write_part-kept kind_task part f h = ("", refl)
  write_part-kept kind_status_update part f h = ("", refl)
  write_part-kept kind_artifact_update part f h = ("", refl)
  write_part-kept (other_kind s) part f h = ("", refl)

  write_parts-kept :
      (first : Bool) (parts : List Part) (f : Formatter)
      → HaveNoFile parts
      → (s : String) × (write_parts cfg first parts f ≡ some (s, f))
  unfolding write_parts
  write_parts-kept first [] f h = ("", refl)
  write_parts-kept first (part ∷ parts) f h =
      let (s, one) = write_part-kept part.kind part f h.0 in
      let (rest, others) = write_parts-kept false parts f h.1 in
      (joined ((if first then "" else " ") ∷ s ∷ rest ∷ []), simp (one, others))

  write_messages-kept :
      (i : ℕ) (messages : List Message) (f : Formatter)
      → NoneHasFile messages
      → (s : String) × (write_messages cfg i messages f ≡ some (s, f))
  unfolding write_messages format_message_content
  write_messages-kept i [] f h = ("", refl)
  write_messages-kept i (msg ∷ messages) f h =
      let (s, one) = write_parts-kept true msg.parts f h.0 in
      let (rest, others) = write_messages-kept (i + 1) messages f h.1 in
      (
        joined (
            "**Message "
            ∷ decimal (i + 1)
            ∷ "** ("
            ∷ role_text msg.role
            ∷ "): "
            ∷ s
            ∷ "\n"
            ∷ rest
            ∷ []),
        simp (one, others),
      )

  note_of_cut-cut :
      (n : ℕ)
      → limit_of cfg.max_history n < n
      → note_of_cut cfg n ≡ note (limit_of cfg.max_history n) n
  unfolding note_of_cut
  note_of_cut-cut n cut =
      let is_cut : ltb (limit_of cfg.max_history n) n ≡ true = ground (arith, cut) in
      rw (history_limit_lem cfg n, is_cut) refl

  -- A task without artifacts and without file parts, of which the history is included and
  -- longer than the limit, is written to a system prompt with the note that names the tool
  -- for the rest, and the builder's tool stays as it was.
  pub format_task_for_system-cut :
      (task : Task) (held : Held)
      → cfg.include_history ≡ true
      → limit_of cfg.max_history (length task.history) < length task.history
      → NoneHasFile task.history
      → task.artifacts ≡ []
      → (heading : String) × (status : String) × (written : String) × (format_task_for_system cfg
            task held
          ≡ some (
            joined (
                heading
                ∷ status
                ∷ joined (
                    "## Conversation Summary\n"
                    ∷ note (limit_of cfg.max_history (length task.history)) (length task.history)
                    ∷ written
                    ∷ "\n"
                    ∷ [])
                ∷ ""
                ∷ []),
            held,
          ))
  unfolding format_task_for_system task_formatter set_full_history set_task_detail
      new_task_data_tool
  format_task_for_system-cut task held included cut h artifacts =
      let start = start_of_history cfg (length task.history) in
      let (written, kept) =
        write_messages-kept start (drop start task.history) (task_formatter task)
          (NoneHasFile-drop start task.history h) in
      (
        task_information cfg task,
        current_status cfg task,
        written,
        simp (
          included,
          not-nil task.history (omega (arith, cut)),
          artifacts,
          kept,
          note_of_cut-cut (length task.history) cut,
        ),
      )
