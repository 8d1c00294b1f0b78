-- ===== src/Prompt/References.antt =====
-- The references that stand for files in messages to a model (prompt/formatter.go), and what the
-- tool answers to them (prompt/tools.go).
use text.Mathlib.TextLemmas.{append_cancel_left}
use atlasic.Prelude.{
  String, false, ℕ, ◌+◌, ◌≤◌, ◌<◌, ◌≡◌, refl, sym, ◌∙◌, ap, Option, none, some, List, [], ◌∷◌, ◌==◌,
  string_eq, if◌then◌else◌, Bool-cases, inl, inr, arith, eq_iff,
}
use atlasic.Prelude.Table.{lookup, lookup-insert, lookup-insert_self}
use atlasic.Prelude.Texts.{joined}
use atlasic.Prelude.Numerals.{pad_zeros-decimal_inj}
use atlasic.A2a.{
  Kind, kind_text_part, kind_file_part, kind_data_part, FilePart, Part, new_text_part,
}
use atlasic.Prompt.Options.{Config}
use atlasic.Prompt.Tools.{add_file}
use atlasic.Prompt.Formatter.{Formatter, id_of, file_data, file_reference, refer_to, optimize_parts}

pub id_of-inj : (m n : ℕ) → id_of m ≡ id_of n → m ≡ n
unfolding id_of
id_of-inj m n h = pad_zeros-decimal_inj 3 m n (append_cancel_left "id_" _ _ h)

pub id_of-ne : (m n : ℕ) → m < n → (id_of n == id_of m) ≡ false
id_of-ne m n h = elim (Bool-cases (id_of n == id_of m)) [
  | inl same ↦ absurd (omega (arith, id_of-inj n m ((eq_iff (id_of n) (id_of m)).0 same)))
  | inr differ ↦ differ
]

abbrev pub IsOther : Kind → Type 0
IsOther kind_text_part = ⊥
IsOther kind_file_part = ⊥
IsOther kind_data_part = ⊥
IsOther _ = Unit

-- The text that stands for a file, and tells the model how to ask the tool for it.
abbrev pub reference_text : String → String → String
reference_text name id = joined (
    "📎 **File**: " ∷ name ∷ " (use `get_task_data` with data_type=\"file\", id=\"" ∷ id ∷ "\")"
    ∷ [])

-- The parts that are shown for a message's: a text is itself, a file is a reference to it, for data
-- there is a fixed text, and nothing else is shown.
pub data Shown (Refers : String → FilePart → Type 0) : List Part → List Part → Type 0 where
  nothing : Shown Refers [] []
  text_itself :
      {part : Part} {parts shown : List Part}
      → part.kind ≡ kind_text_part
      → Shown Refers parts shown
      → Shown Refers (part ∷ parts) (part ∷ shown)
  file_reference_to :
      {part : Part} {parts shown : List Part} (file : FilePart) (id : String)
      → part.kind ≡ kind_file_part
      → part.file ≡ some file
      → Refers id file
      → Shown Refers parts shown
      → Shown Refers (part ∷ parts) (new_text_part (reference_text file.name id) ∷ shown)
  data_text :
      {part : Part} {parts shown : List Part}
      → part.kind ≡ kind_data_part
      → Shown Refers parts shown
      → Shown Refers
          (part ∷ parts)
          (new_text_part "📊 **Data**: [structured data - use tools for access]" ∷ shown)
  not_shown :
      {part : Part} {parts shown : List Part}
      → IsOther part.kind
      → Shown Refers parts shown
      → Shown Refers (part ∷ parts) shown

pub Shown-map :
    {R Q : String → FilePart → Type 0} {parts shown : List Part}
    → ((id : String) (file : FilePart) → R id file → Q id file)
    → Shown R parts shown
    → Shown Q parts shown
Shown-map f nothing = nothing
Shown-map f (text_itself k rest) = text_itself k (Shown-map f rest)
Shown-map f (file_reference_to file id k same r rest) =
    file_reference_to file id k same (f id file r) (Shown-map f rest)
Shown-map f (data_text k rest) = data_text k (Shown-map f rest)
Shown-map f (not_shown k rest) = not_shown k (Shown-map f rest)

-- Each part that is of the kind of files has one.
abbrev pub HasFile : Kind → Option FilePart → Type 0
HasFile kind_file_part none = ⊥
HasFile _ _ = Unit

abbrev pub HaveFiles : List Part → Type 0
HaveFiles [] = Unit
HaveFiles (part ∷ parts) = HasFile part.kind part.file × HaveFiles parts

-- The formatter gave the id, and its tool has the file under it.
abbrev pub Given : Formatter → String → FilePart → Type 0
Given f id file =
    (n : ℕ) × (id ≡ id_of n)
    × (n ≤ f.id_counter)
    × (lookup id f.tool.file_map ≡ some (file_data file))

-- What has been given stays so, and the rest of the tool is as it was.
pub record Extends (f g : Formatter) : Type 0 where
  pub counted : f.id_counter ≤ g.id_counter
  pub kept :
      (n : ℕ)
      → n ≤ f.id_counter
      → lookup (id_of n) g.tool.file_map ≡ lookup (id_of n) f.tool.file_map
  pub same_history : g.tool.full_history ≡ f.tool.full_history
  pub same_detail : g.tool.task_detail ≡ f.tool.task_detail
  pub same_artifacts : g.tool.artifact_map ≡ f.tool.artifact_map

pub Extends-refl : (f : Formatter) → Extends f f
Extends-refl f = record {
  counted = omega arith;
  kept = λ n h. refl;
  same_history = refl;
  same_detail = refl;
  same_artifacts = refl;
}

pub Extends-trans : {f g h : Formatter} → Extends f g → Extends g h → Extends f h
Extends-trans e d = record {
  counted = omega arith;
  kept = λ n l. d.kept n (omega arith) ∙ e.kept n l;
  same_history = d.same_history ∙ e.same_history;
  same_detail = d.same_detail ∙ e.same_detail;
  same_artifacts = d.same_artifacts ∙ e.same_artifacts;
}

pub Given-Extends :
    {f g : Formatter}
    → Extends f g
    → (id : String) (file : FilePart) → Given f id file
    → Given g id file
Given-Extends {f} {g} e id file (n, same, l, found) = (
  n,
  same,
  omega arith,
  ap (λ i. lookup i g.tool.file_map) same
      ∙ e.kept n l
      ∙ ap (λ i. lookup i f.tool.file_map) (sym same)
      ∙ found,
)

-- The formatter after a reference to a file.
abbrev pub after_file : FilePart → Formatter → Formatter
after_file file f = record {
  id_counter = f.id_counter + 1;
  tool = add_file (id_of (f.id_counter + 1)) (file_data file) f.tool;
}

pub refer_to_lem :
    (file : FilePart) (f : Formatter)
    → refer_to (some file) f
      ≡ some (file_reference file.name (id_of (f.id_counter + 1)), after_file file f)
unfolding refer_to
refer_to_lem file f = refl

pub after_file-Given :
    (file : FilePart) (f : Formatter) → Given (after_file file f) (id_of (f.id_counter + 1)) file
unfolding add_file
after_file-Given file f = (
  f.id_counter + 1,
  refl,
  omega arith,
  lookup-insert_self (id_of (f.id_counter + 1)) _ f.tool.file_map,
)

pub after_file-Extends : (file : FilePart) (f : Formatter) → Extends f (after_file file f)
unfolding add_file
after_file-Extends file f = record {
  counted = omega arith;
  kept = λ n l.
      lookup-insert (id_of (f.id_counter + 1)) (id_of n) (file_data file) f.tool.file_map
      ∙ ap (λ b. if b then some (file_data file) else lookup (id_of n) f.tool.file_map)
          (id_of-ne n (f.id_counter + 1) (omega arith));
  same_history = refl;
  same_detail = refl;
  same_artifacts = refl;
}

abbrev pub ShownFrom : Formatter → List Part → List Part → Formatter → Type 0
ShownFrom f parts shown g = Extends f g × Shown (Given g) parts shown

abbrev pub PartsShown : Config → List Part → Formatter → Type 0
PartsShown cfg parts f =
    (shown : List Part) × (g : Formatter) × (optimize_parts cfg parts f ≡ some (shown, g))
    × ShownFrom f parts shown g
