-- ===== src/A2a/Validation/Meaning.antt =====
-- What a valid part, message, artifact or task is, stated without the order of the checks, for the
-- `Validate` methods of a2a/a2a.go.
use atlasic.Prelude.{
  ℕ, suc, true, false, ◌≡◌, ◌≢◌, ◌↔◌, ◌⊎◌, refl, Option, none, some, List, [], ◌∷◌, arith, eq_iff,
  Option-cases, inl, inr,
}
use atlasic.A2a.{
  Kind, Role, TaskState, kind_message, kind_task, kind_text_part, kind_file_part, kind_data_part,
  is_valid_role, is_valid_state, FilePart, Part, Message, TaskStatus, Artifact, Task,
}
use atlasic.A2a.Validation.{
  Invalid, validate_file, validate_by_kind, validate_part, validate_each, validate_message,
  validate_status, validate_artifact, validate_task, at_part, at_history, at_artifact,
  is_empty_role, is_empty_state, is_empty, validate_message_field,
}

abbrev pub All {ℓ κ} : {A : Type ℓ} → (A → Type κ) → List A → Type κ
All P [] = Unit
All P (x ∷ xs) = P x × All P xs

-- Either a URI or bytes, and not both.
abbrev pub IsValidFile : FilePart → Type 0
IsValidFile f = ((f.uri ≢ "") × (f.bytes ≡ "")) ⊎ ((f.uri ≡ "") × (f.bytes ≢ ""))

-- The content that the kind names is there, and no other.
abbrev pub IsValidContent : Kind → Part → Type 0
IsValidContent kind_text_part p = (p.text ≢ "") × (p.file ≡ none) × (p.content ≡ none)
IsValidContent kind_file_part p =
    ((f : FilePart) × (p.file ≡ some f) × IsValidFile f) × (p.text ≡ "") × (p.content ≡ none)
IsValidContent kind_data_part p = (p.content ≢ none) × (p.text ≡ "") × (p.file ≡ none)
IsValidContent _ p = ⊥

abbrev pub IsValidPart : Part → Type 0
IsValidPart p = IsValidContent p.kind p

pub record IsValidMessage (m : Message) : Type 0 where
  pub kind : m.kind ≡ kind_message
  pub message_id : m.message_id ≢ ""
  pub role : is_valid_role m.role ≡ true
  pub parts : m.parts ≢ []
  pub each_part : All IsValidPart m.parts

validate_file_iff : (f : FilePart) → (validate_file f ≡ none) ↔ IsValidFile f
unfolding validate_file
validate_file_iff f = ground (arith, eq_iff f.uri "", eq_iff f.bytes "")

validate_file_part_iff :
    (p : Part) → (validate_by_kind kind_file_part p ≡ none) ↔ IsValidContent kind_file_part p
unfolding validate_by_kind
validate_file_part_iff p = elim (Option-cases p.file) [
  | inl e ↦ ground (arith, eq_iff p.text "")
  | inr (f, e) ↦ ground (arith, eq_iff p.text "", validate_file_iff f)
]

-- `Part.Validate` returns no error exactly for the parts that have the content of their kind.
pub validate_part_iff : (p : Part) → (validate_part p ≡ none) ↔ IsValidPart p
unfolding validate_part
validate_part_iff p = by_kind p p.kind refl
  where
    by_kind : (p : Part) (k : Kind) → p.kind ≡ k → (validate_part p ≡ none) ↔ IsValidPart p
    by_kind p kind_text_part e = ground (arith, eq_iff p.text "")
    by_kind p kind_file_part e = rw (e, validate_part) (validate_file_part_iff p)
    by_kind p _ e = ground (arith, eq_iff p.text "")

module _ {ℓ κ} {A : Type ℓ} (P : A → Type κ) (check : A → Option Invalid)
    (wrap : ℕ → Invalid → Invalid) (check_iff : (a : A) → (check a ≡ none) ↔ P a) where
  -- A loop of checks passes exactly where each element does, whatever index it counts from.
  pub validate_each_iff : (i : ℕ) (xs : List A) → (validate_each check wrap i xs ≡ none) ↔ All P xs
  unfolding validate_each
  validate_each_iff i [] = (λ _. tt, λ _. refl)
  validate_each_iff i (x ∷ xs) = elim (Option-cases (check x)) [
    | inl e ↦
        rw (e, validate_each)
          (
            (λ h. ((check_iff x).0 e, (validate_each_iff (suc i) xs).0 h)),
            (λ h. (validate_each_iff (suc i) xs).1 h.1),
          )
    | inr (err, e) ↦ rw (e, validate_each) ((λ h. cc), (λ h. cc (e, (check_iff x).1 h.0)))
  ]

is_valid_role-ne_empty : (r : Role) → is_valid_role r ≡ true → is_empty_role r ≡ false
unfolding is_valid_role
is_valid_role-ne_empty r h = ground arith

is_empty_iff {ℓ} : {A : Type ℓ} (xs : List A) → (is_empty xs ≡ true) ↔ (xs ≡ [])
is_empty_iff [] = (λ _. refl, λ _. refl)
is_empty_iff (x ∷ xs) = (λ h. cc, λ h. cc)

parts_iff :
    (ps : List Part) → (validate_each validate_part at_part 0 ps ≡ none) ↔ All IsValidPart ps
parts_iff ps = validate_each_iff IsValidPart validate_part at_part validate_part_iff 0 ps

-- `Message.Validate` returns no error exactly for a message of kind "message" with an id, a known
-- role, and at least one part, every one of them valid.
pub validate_message_iff : (m : Message) → (validate_message m ≡ none) ↔ IsValidMessage m
unfolding validate_message
validate_message_iff m = (
  λ h. record {
    kind = ground arith;
    message_id = ground (arith, eq_iff m.message_id "");
    role = ground arith;
    parts = ground arith;
    each_part = (parts_iff m.parts).0 (ground arith);
  },
  λ v. ground (
    arith,
    v.kind,
    eq_iff m.message_id "",
    is_valid_role-ne_empty m.role v.role,
    is_empty_iff m.parts,
    (parts_iff m.parts).1 v.each_part,
  ),
)

abbrev pub IsValidMessageField : Option Message → Type 0
IsValidMessageField none = Unit
IsValidMessageField (some m) = IsValidMessage m

pub record IsValidStatus (st : TaskStatus) : Type 0 where
  pub state : is_valid_state st.state ≡ true
  pub message : IsValidMessageField st.message

pub record IsValidArtifact (a : Artifact) : Type 0 where
  pub artifact_id : a.artifact_id ≢ ""
  pub parts : a.parts ≢ []
  pub each_part : All IsValidPart a.parts

pub record IsValidTask (t : Task) : Type 0 where
  pub kind : t.kind ≡ kind_task
  pub id : t.id ≢ ""
  pub context_id : t.context_id ≢ ""
  pub status : IsValidStatus t.status
  pub history : All IsValidMessage t.history
  pub artifacts : All IsValidArtifact t.artifacts

is_valid_state-ne_empty : (s : TaskState) → is_valid_state s ≡ true → is_empty_state s ≡ false
unfolding is_valid_state
is_valid_state-ne_empty s h = ground arith

validate_message_field_iff :
    (o : Option Message) → (validate_message_field o ≡ none) ↔ IsValidMessageField o
validate_message_field_iff none = (λ _. tt, λ _. refl)
validate_message_field_iff (some m) = (
  λ h. (validate_message_iff m).0 (ground arith),
  λ v. ground (arith, (validate_message_iff m).1 v),
)

validate_status_iff : (st : TaskStatus) → (validate_status st ≡ none) ↔ IsValidStatus st
unfolding validate_status
validate_status_iff st = (
  λ h. record {
    state = ground arith;
    message = (validate_message_field_iff st.message).0 (ground arith);
  },
  λ v. ground (
    arith,
    is_valid_state-ne_empty st.state v.state,
    v.state,
    (validate_message_field_iff st.message).1 v.message,
  ),
)

pub validate_artifact_iff : (a : Artifact) → (validate_artifact a ≡ none) ↔ IsValidArtifact a
unfolding validate_artifact
validate_artifact_iff a = (
  λ h. record {
    artifact_id = ground (arith, eq_iff a.artifact_id "");
    parts = ground arith;
    each_part = (parts_iff a.parts).0 (ground arith);
  },
  λ v.
      ground
        (arith, eq_iff a.artifact_id "", is_empty_iff a.parts, (parts_iff a.parts).1 v.each_part),
)

abbrev validate_history : List Message → Option Invalid
validate_history = validate_each validate_message at_history 0

abbrev validate_artifacts : List Artifact → Option Invalid
validate_artifacts = validate_each validate_artifact at_artifact 0

history_iff : (ms : List Message) → (validate_history ms ≡ none) ↔ All IsValidMessage ms
history_iff ms =
    validate_each_iff IsValidMessage validate_message at_history validate_message_iff 0 ms

artifacts_iff : (xs : List Artifact) → (validate_artifacts xs ≡ none) ↔ All IsValidArtifact xs
artifacts_iff xs =
    validate_each_iff IsValidArtifact validate_artifact at_artifact validate_artifact_iff 0 xs

-- `Task.Validate` returns no error exactly for a task of kind "task" with an id and a context id,
-- a status in a known state whose message, if any, is valid, and with every message of its history
-- and every artifact valid.
pub validate_task_iff : (t : Task) → (validate_task t ≡ none) ↔ IsValidTask t
unfolding validate_task
validate_task_iff t = (
  λ h. record {
    kind = ground arith;
    id = ground (arith, eq_iff t.id "");
    context_id = ground (arith, eq_iff t.context_id "");
    status = (validate_status_iff t.status).0 (ground arith);
    history = (history_iff t.history).0 (ground arith);
    artifacts = (artifacts_iff t.artifacts).0 (ground arith);
  },
  λ v. ground (
    arith,
    v.kind,
    eq_iff t.id "",
    eq_iff t.context_id "",
    (validate_status_iff t.status).1 v.status,
    (history_iff t.history).1 v.history,
    (artifacts_iff t.artifacts).1 v.artifacts,
  ),
)
