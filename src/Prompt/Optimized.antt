-- ===== src/Prompt/Optimized.antt =====
-- The parts of a message for a model (`optimizeMessage` of prompt/formatter.go).
use atlasic.Prelude.{false, ◌+◌, ◌≡◌, refl, sym, subst, Option, none, some, List, [], ◌∷◌, ◌++◌}
use atlasic.A2a.{
  Kind, kind_text_part, kind_file_part, kind_data_part, kind_message, kind_task, kind_status_update,
  kind_artifact_update, other_kind, FilePart, Part, new_text_part,
}
use atlasic.Prompt.Options.{Config}
use atlasic.Prompt.Formatter.{Formatter, id_of, file_reference, optimize_part, optimize_parts}
use atlasic.Prompt.References.{
  HasFile, HaveFiles, Given, Extends, Extends-refl, Extends-trans, Given-Extends, Shown, nothing,
  text_itself, file_reference_to, data_text, not_shown, PartsShown, after_file, refer_to_lem,
  after_file-Given, after_file-Extends, IsOther,
}

module _ (cfg : Config) (by_reference : cfg.include_file_parts ≡ false) where
  abbrev OneShown : Kind → Part → Formatter → Type 0
  OneShown kind part f =
      (out : List Part) × (g : Formatter) × (optimize_part cfg kind part f ≡ some (out, g))
      × Extends f g
      × ((h : Formatter) (parts shown : List Part)
          → Extends g h
          → Shown (Given h) parts shown
          → Shown (Given h) (part ∷ parts) (out ++ shown))

  file-shown :
      (part : Part) (f : Formatter) (o : Option FilePart)
      → part.kind ≡ kind_file_part
      → part.file ≡ o
      → HasFile kind_file_part o
      → OneShown kind_file_part part f
  file-shown part f none k same h = absurd h
  file-shown part f (some file) k same h = (
    new_text_part (file_reference file.name (id_of (f.id_counter + 1))) ∷ [],
    after_file file f,
    rw (by_reference, same, refer_to_lem file f) refl,
    after_file-Extends file f,
    λ g parts shown e.
        file_reference_to file _ k same (Given-Extends e _ file (after_file-Given file f)),
  )

  other-shown :
      (kind : Kind) (part : Part) (f : Formatter)
      → IsOther kind
      → part.kind ≡ kind
      → optimize_part cfg kind part f ≡ some ([], f)
      → OneShown kind part f
  other-shown kind part f other k same =
      ([], f, same, Extends-refl f, λ h parts shown e. not_shown (subst IsOther (sym k) other))

  one-shown :
      (kind : Kind) (part : Part) (f : Formatter)
      → part.kind ≡ kind
      → HasFile kind part.file
      → OneShown kind part f
  one-shown kind_text_part part f k h =
      (part ∷ [], f, refl, Extends-refl f, λ h parts shown e. text_itself k)
  one-shown kind_file_part part f k h = file-shown part f part.file k refl h
  one-shown kind_data_part part f k h = (_, f, refl, Extends-refl f, λ h parts shown e. data_text k)
  one-shown kind_message part f k h = other-shown kind_message part f tt k refl
  one-shown kind_task part f k h = other-shown kind_task part f tt k refl
  one-shown kind_status_update part f k h = other-shown kind_status_update part f tt k refl
  one-shown kind_artifact_update part f k h = other-shown kind_artifact_update part f tt k refl
  one-shown (other_kind s) part f k h = other-shown (other_kind s) part f tt k refl

  pub optimize_parts-Shown :
      (parts : List Part) (f : Formatter) → HaveFiles parts → PartsShown cfg parts f
  unfolding optimize_parts
  optimize_parts-Shown [] f h = ([], f, refl, (Extends-refl f, nothing))
  optimize_parts-Shown (part ∷ parts) f h =
      let (out, g, one, e, onto) = one-shown part.kind part f refl h.0 in
      let (shown, g', rest, (e', shows)) = optimize_parts-Shown parts g h.1 in
      (out ++ shown, g', rw (one, rest) refl, (Extends-trans e e', onto g' parts shown e' shows))
