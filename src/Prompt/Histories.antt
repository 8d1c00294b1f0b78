-- ===== src/Prompt/Histories.antt =====
-- Messages and histories for a model, and the tool that is set for them (`formatMessageForMessages`
-- and `formatTaskForMessages` of prompt/formatter.go).
use atlasic.Prelude.{
  String, Bool, true, false, ◌||◌, ℕ, suc, ◌-◌, ◌<◌, ◌≡◌, refl, sym, subst, ap, ◌∙◌, some, List, [],
  ◌∷◌, ◌++◌, length, drop, drop-nil, last_n, string_eq, Bool-cases, inl, inr, arith, zero,
}
use atlasic.A2a.{FilePart, Message, Task}
use atlasic.Prompt.Options.{Config}
use atlasic.Prompt.Tools.{Encoder, encoded, set_full_history, TaskDataTool, execute}
use atlasic.Prompt.Formatter.{
  Formatter, Held, optimized_from, optimize_message, optimize_messages, new_formatter,
  task_formatter, is_nil, has_references, set_tool_if, format_message_for_messages,
  format_task_for_messages, history_for_messages, history_limit, start_of_history, notice_of_cut,
  cut_by_config,
}
use atlasic.Prompt.Notices.{limit_of, history_limit_lem, notice, notice_of_cut_lem}
use atlasic.Prompt.References.{
  HaveFiles, Given, Extends, Extends-refl, Extends-trans, Given-Extends, Shown-map,
}
use atlasic.Prompt.Answers.{
  Answers, MessageShown, AllShown, Given-Answers, execute-history, history_arguments,
}
use atlasic.Prompt.Optimized.{optimize_parts-Shown}

AllShown-map :
    {R Q : String → FilePart → Type 0} (messages shown : List Message)
    → ((id : String) (file : FilePart) → R id file → Q id file)
    → AllShown R messages shown
    → AllShown Q messages shown
AllShown-map [] [] f h = tt
AllShown-map [] (s ∷ shown) f h = h
AllShown-map (msg ∷ messages) [] f h = h
AllShown-map (msg ∷ messages) (s ∷ shown) f ((i, r, parts), rest) =
    ((i, r, Shown-map f parts), AllShown-map messages shown f rest)

abbrev pub AllHaveFiles : List Message → Type 0
AllHaveFiles [] = Unit
AllHaveFiles (msg ∷ messages) = HaveFiles msg.parts × AllHaveFiles messages

AllHaveFiles-drop :
    (n : ℕ) (messages : List Message) → AllHaveFiles messages → AllHaveFiles (drop n messages)
AllHaveFiles-drop zero messages h = h
AllHaveFiles-drop (suc n) [] h = h
AllHaveFiles-drop (suc n) (msg ∷ messages) h = AllHaveFiles-drop n messages h.1

is_nil→nil : (history : List Message) → is_nil history ≡ true → history ≡ []
is_nil→nil [] h = refl
is_nil→nil (msg ∷ messages) h = cc

start_of_history-nil : (cfg : Config) → drop {A = Message} (start_of_history cfg 0) [] ≡ []
start_of_history-nil cfg = drop-nil (start_of_history cfg 0)

notice_of_cut-nil : (cfg : Config) → notice_of_cut cfg 0 ≡ []
unfolding notice_of_cut
notice_of_cut-nil cfg = ground arith

drop-start_of_history :
    (cfg : Config) (history : List Message)
    → start_of_history cfg (length history) ≡ length history - history_limit cfg (length history)
unfolding start_of_history
drop-start_of_history cfg history = ground arith

or-true : (b : Bool) → (b || true) ≡ true
or-true true = refl
or-true false = refl

pub not-nil : (history : List Message) → 0 < length history → is_nil history ≡ false
not-nil [] h = absurd (omega arith)
not-nil (msg ∷ messages) h = refl

-- Where the history is cut, the config has a positive number.
cut-cut_by_config :
    (cfg : Config) (n : ℕ)
    → cfg.include_history ≡ true
    → history_limit cfg n < n
    → cut_by_config cfg n ≡ true
unfolding history_limit
cut-cut_by_config cfg n included h = ground arith

-- Answers with the whole history, in JSON.
abbrev pub TellsHistory : Encoder → Held → Task → Type 0
TellsHistory encoder held task =
    (tool : TaskDataTool) × (held ≡ some tool)
    × (execute encoder history_arguments tool ≡ encoded (encoder.history_json task.history))

-- What becomes of a task, by the number of messages that are shown.
abbrev pub TaskShown : Config → Encoder → Task → Held → ℕ → Type 0
TaskShown cfg encoder task held limit =
    (shown : List Message) × (after : Held) × (format_task_for_messages cfg task held
      ≡ some (notice limit (length task.history) ++ shown, after))
    × AllShown (Answers encoder after) (last_n limit task.history) shown
    × (limit < length task.history → TellsHistory encoder after task)

module _ (cfg : Config) (by_reference : cfg.include_file_parts ≡ false) where
  optimize_message-Shown :
      (msg : Message) (f : Formatter)
      → HaveFiles msg.parts
      → (shown : Message) × (g : Formatter) × (optimize_message cfg msg f ≡ some (shown, g))
        × Extends f g
        × MessageShown (Given g) msg shown
  unfolding optimize_message
  optimize_message-Shown msg f h =
      let (parts, g, made, (e, shows)) = optimize_parts-Shown cfg by_reference msg.parts f h in
      (optimized_from msg parts, g, rw made refl, e, (refl, refl, shows))

  optimize_messages-Shown :
      (messages : List Message) (f : Formatter)
      → AllHaveFiles messages
      → (shown : List Message) × (g : Formatter) × (optimize_messages cfg messages f
          ≡ some (shown, g))
        × Extends f g
        × AllShown (Given g) messages shown
  unfolding optimize_messages
  optimize_messages-Shown [] f h = ([], f, refl, Extends-refl f, tt)
  optimize_messages-Shown (msg ∷ messages) f h =
      let (s, g, one, e, (i, r, parts)) = optimize_message-Shown msg f h.0 in
      let (shown, g', rest, e', all) = optimize_messages-Shown messages g h.1 in
      (
        s ∷ shown,
        g',
        rw (one, rest) refl,
        Extends-trans e e',
        ((i, r, Shown-map (Given-Extends e') parts), all),
      )

  -- A message of which each file part has a file, written with files by reference, becomes
  -- one message with its id and role: a text part is itself, a data part is a fixed text,
  -- and a file is a text with an id, to which the builder's tool answers with the file's name,
  -- bytes and MIME type, without its URI; parts of other kinds are left out.
  pub format_message_for_messages-Shown :
      (encoder : Encoder) (msg : Message) (held : Held)
      → HaveFiles msg.parts
      → (shown : Message) × (after : Held) × (format_message_for_messages cfg msg held
          ≡ some (shown ∷ [], after))
        × MessageShown (Answers encoder after) msg shown
  unfolding format_message_for_messages
  format_message_for_messages-Shown encoder msg held h =
      let (shown, g, made, e, (i, r, parts)) = optimize_message-Shown msg new_formatter h in
      (
        shown,
        set_tool_if (has_references g.tool) g.tool held,
        rw made refl,
        (i, r, Shown-map (Given-Answers encoder (has_references g.tool) g held (λ set. set)) parts),
      )

  abbrev HistoryShown : Task → Type 0
  HistoryShown task =
      (shown : List Message) × (g : Formatter) × (history_for_messages cfg task
          (task_formatter task)
        ≡ some (notice_of_cut cfg (length task.history) ++ shown, g))
      × Extends (task_formatter task) g
      × AllShown (Given g) (drop (start_of_history cfg (length task.history)) task.history) shown

  filled_history :
      (task : Task) (f : Formatter)
      → cfg.include_history ≡ true
      → is_nil task.history ≡ false
      → {shown : List Message} {g : Formatter}
      → optimize_messages cfg (drop (start_of_history cfg (length task.history)) task.history) f
        ≡ some (shown, g)
      → history_for_messages cfg task f ≡ some (notice_of_cut cfg (length task.history) ++ shown, g)
  unfolding history_for_messages
  filled_history task f included filled made = simp (included, filled, made)

  history-shown :
      (task : Task) → cfg.include_history ≡ true → AllHaveFiles task.history → HistoryShown task
  unfolding history_for_messages
  history-shown task included h = elim (Bool-cases (is_nil task.history)) [
    | inl empty ↦ (
      [],
      task_formatter task,
      rw
          (
            included,
            empty,
            ap (λ history. notice_of_cut cfg (length history)) (is_nil→nil task.history empty),
            notice_of_cut-nil cfg,
          )
          refl,
      Extends-refl (task_formatter task),
      subst
          (λ history.
            AllShown (Given (task_formatter task))
              (drop (start_of_history cfg (length history)) history) [])
          (sym (is_nil→nil task.history empty)) (rw (start_of_history-nil cfg) tt),
    )
    | inr filled ↦
        let (shown, g, made, e, all) =
          optimize_messages-Shown (drop (start_of_history cfg (length task.history)) task.history)
            (task_formatter task) (AllHaveFiles-drop _ task.history h) in
        (shown, g, filled_history task (task_formatter task) included filled made, e, all)
  ]

  tells_history :
      (encoder : Encoder) (task : Task) (g : Formatter) (held : Held)
      → cfg.include_history ≡ true
      → Extends (task_formatter task) g
      → history_limit cfg (length task.history) < length task.history
      → TellsHistory encoder
          (set_tool_if
            (has_references g.tool || cut_by_config cfg (length task.history))
            g.tool
            held)
          task
  unfolding task_formatter set_full_history
  tells_history encoder task g held included e cut = (
    g.tool,
    rw (cut-cut_by_config cfg (length task.history) included cut, or-true (has_references g.tool))
        refl,
    subst
        (λ history.
          execute encoder history_arguments g.tool ≡ encoded (encoder.history_json history))
        e.same_history
        (execute-history encoder g.tool
          (ap is_nil e.same_history ∙ not-nil task.history (omega arith))),
  )

  limited-Shown :
      (encoder : Encoder) (task : Task) (held : Held)
      → cfg.include_history ≡ true
      → AllHaveFiles task.history
      → TaskShown cfg encoder task held (history_limit cfg (length task.history))
  unfolding format_task_for_messages
  limited-Shown encoder task held included h =
      let (shown, g, made, e, all) = history-shown task included h in
      let cut = cut_by_config cfg (length task.history) in
      (
        shown,
        set_tool_if (has_references g.tool || cut) g.tool held,
        rw (made, notice_of_cut_lem cfg (length task.history)) refl,
        AllShown-map _ shown
            (Given-Answers encoder (has_references g.tool || cut) g held (λ set. rw set refl))
            (subst (λ n. AllShown (Given g) (drop n task.history) shown)
              (drop-start_of_history cfg task.history) all),
        tells_history encoder task g held included e,
      )

  -- A task of which each file part has a file, written with its history and with files by
  -- reference, becomes a notice of how many messages are shown, where the history is cut, and the
  -- last messages, as many as the config says if its number is positive and else all. Each is shown
  -- with references to which the builder's tool answers with the name, bytes and type of the file;
  -- where the history is cut, the tool also answers with all of it in JSON.
  pub format_task_for_messages-Shown :
      (encoder : Encoder) (task : Task) (held : Held)
      → cfg.include_history ≡ true
      → AllHaveFiles task.history
      → TaskShown cfg encoder task held (limit_of cfg.max_history (length task.history))
  format_task_for_messages-Shown encoder task held included h =
      subst (TaskShown cfg encoder task held) (history_limit_lem cfg (length task.history))
        (limited-Shown encoder task held included h)
