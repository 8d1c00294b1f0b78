-- ===== src/A2a/Validation.antt =====
-- The `Validate` methods (a2a/a2a.go): what each checks, in its order, and the error it returns.
pub mod Meaning
use atlasic.Prelude.{
  ℕ, zero, suc, String, Bool, true, false, not, ◌&&◌, ◌||◌, Option, none, some, List, [], ◌∷◌, ◌==◌,
  string_eq, if◌then◌else◌,
}
use atlasic.A2a.{
  Kind, kind_message, kind_task, kind_text_part, kind_file_part, kind_data_part, other_kind, Role,
  other_role, TaskState, other_state, is_valid_role, is_valid_state, JsonMap, FilePart, Part,
  Message, TaskStatus, Artifact, Task,
}

-- `none` is a nil error.
pub data Invalid : Type 0 where
  wrong_kind : Invalid
  id_required : Invalid
  context_id_required : Invalid
  role_required : Invalid
  invalid_role : Invalid
  parts_required : Invalid
  kind_required : Invalid
  invalid_part_kind : Invalid
  text_required : Invalid
  file_required : Invalid
  data_required : Invalid
  extra_fields : Invalid
  uri_and_bytes : Invalid
  no_uri_nor_bytes : Invalid
  state_required : Invalid
  invalid_state : Invalid
  in_file : Invalid → Invalid
  in_status : Invalid → Invalid
  in_message : Invalid → Invalid
  at_part : ℕ → Invalid → Invalid
  at_history : ℕ → Invalid → Invalid
  at_artifact : ℕ → Invalid → Invalid

abbrev pub is_some {ℓ} : {A : Type ℓ} → Option A → Bool
is_some none = false
is_some (some a) = true

-- `if err := ...; err != nil { return wrap(err) }`, and the checks that follow.
abbrev pub or_wrapped : Option Invalid → (Invalid → Invalid) → Option Invalid → Option Invalid
or_wrapped none wrap next = next
or_wrapped (some e) wrap next = some (wrap e)

unfoldable pub validate_file : FilePart → Option Invalid
validate_file f =
    let has_uri = not (f.uri == "") in
    let has_bytes = not (f.bytes == "") in
    if has_uri && has_bytes
    then some uri_and_bytes
    else if not has_uri && not has_bytes
    then some no_uri_nor_bytes
    else none

abbrev pub validate_file_field : Option FilePart → Option Invalid → Option Invalid
validate_file_field none next = some file_required
validate_file_field (some f) next = or_wrapped (validate_file f) in_file next

-- `isValidPartKind`
unfoldable pub is_valid_part_kind : Kind → Bool
is_valid_part_kind kind_text_part = true
is_valid_part_kind kind_file_part = true
is_valid_part_kind kind_data_part = true
is_valid_part_kind _ = false

-- The `switch` of `Part.Validate`.
unfoldable pub validate_by_kind : Kind → Part → Option Invalid
validate_by_kind kind_text_part p =
    if p.text == ""
    then some text_required
    else if is_some p.file || is_some p.content
    then some extra_fields
    else none
validate_by_kind kind_file_part p =
    validate_file_field p.file
      (if not (p.text == "") || is_some p.content then some extra_fields else none)
validate_by_kind kind_data_part p =
    if not (is_some p.content)
    then some data_required
    else if not (p.text == "") || is_some p.file
    then some extra_fields
    else none
validate_by_kind _ p = none

abbrev pub is_empty_kind : Kind → Bool
is_empty_kind (other_kind s) = s == ""
is_empty_kind _ = false

unfoldable pub validate_part : Part → Option Invalid
unfolding is_valid_part_kind validate_by_kind
validate_part p =
    if is_empty_kind p.kind
    then some kind_required
    else if not (is_valid_part_kind p.kind)
    then some invalid_part_kind
    else validate_by_kind p.kind p

-- `for i, x := range xs { if err := x.Validate(); err != nil { return ... } }`, from index `i` on.
unfoldable pub validate_each {ℓ} :
    {A : Type ℓ} → (A → Option Invalid) → (ℕ → Invalid → Invalid) → ℕ → List A → Option Invalid
validate_each check wrap i [] = none
validate_each check wrap i (x ∷ xs) =
    or_wrapped (check x) (wrap i) (validate_each check wrap (suc i) xs)

abbrev pub is_empty {ℓ} : {A : Type ℓ} → List A → Bool
is_empty [] = true
is_empty (x ∷ xs) = false

abbrev pub is_message_kind : Kind → Bool
is_message_kind kind_message = true
is_message_kind _ = false

abbrev pub is_task_kind : Kind → Bool
is_task_kind kind_task = true
is_task_kind _ = false

abbrev pub is_empty_role : Role → Bool
is_empty_role (other_role s) = s == ""
is_empty_role _ = false

abbrev pub is_empty_state : TaskState → Bool
is_empty_state (other_state s) = s == ""
is_empty_state _ = false

unfoldable pub validate_message : Message → Option Invalid
unfolding is_valid_role
validate_message m =
    if not (is_message_kind m.kind)
    then some wrong_kind
    else if m.message_id == ""
    then some id_required
    else if is_empty_role m.role
    then some role_required
    else if not (is_valid_role m.role)
    then some invalid_role
    else if is_empty m.parts
    then some parts_required
    else validate_each validate_part at_part 0 m.parts

abbrev pub validate_message_field : Option Message → Option Invalid
validate_message_field none = none
validate_message_field (some m) = or_wrapped (validate_message m) in_message none

unfoldable pub validate_status : TaskStatus → Option Invalid
unfolding is_valid_state
validate_status st =
    if is_empty_state st.state
    then some state_required
    else if not (is_valid_state st.state)
    then some invalid_state
    else validate_message_field st.message

unfoldable pub validate_artifact : Artifact → Option Invalid
validate_artifact a =
    if a.artifact_id == ""
    then some id_required
    else if is_empty a.parts
    then some parts_required
    else validate_each validate_part at_part 0 a.parts

unfoldable pub validate_task : Task → Option Invalid
validate_task t =
    if not (is_task_kind t.kind)
    then some wrong_kind
    else if t.id == ""
    then some id_required
    else if t.context_id == ""
    then some context_id_required
    else or_wrapped (validate_status t.status) in_status (
        or_wrapped (validate_each validate_message at_history 0 t.history) (λ e. e)
          (validate_each validate_artifact at_artifact 0 t.artifacts))
