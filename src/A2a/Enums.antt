-- ===== src/A2a/Enums.antt =====
-- Kinds, roles and task states (a2a/a2a.go), with the tests on them.
use atlasic.Prelude.{String, Bool, true, false, not}

pub data Kind : Type 0 where
  kind_message kind_task kind_text_part kind_file_part kind_data_part kind_status_update : Kind
  kind_artifact_update : Kind
  other_kind : String → Kind

pub data Role : Type 0 where
  role_user role_agent : Role
  other_role : String → Role

pub data TaskState : Type 0 where
  submitted working input_required completed canceled failed rejected auth_required unknown :
      TaskState
  other_state : String → TaskState

-- `Role.IsValid`
unfoldable pub is_valid_role : Role → Bool
is_valid_role (other_role s) = false
is_valid_role _ = true

-- `TaskState.IsValid`
unfoldable pub is_valid_state : TaskState → Bool
is_valid_state (other_state s) = false
is_valid_state _ = true

unfoldable pub is_terminal : TaskState → Bool
is_terminal completed = true
is_terminal failed = true
is_terminal canceled = true
is_terminal rejected = true
is_terminal _ = false

unfoldable pub is_interrupted : TaskState → Bool
is_interrupted input_required = true
is_interrupted auth_required = true
is_interrupted _ = false

unfoldable pub can_cancel : TaskState → Bool
unfolding is_terminal
can_cancel state = not (is_terminal state)

-- The texts that Go's constants have.
unfoldable pub role_text : Role → String
role_text role_user = "user"
role_text role_agent = "agent"
role_text (other_role s) = s

unfoldable pub state_text : TaskState → String
state_text submitted = "submitted"
state_text working = "working"
state_text input_required = "input-required"
state_text completed = "completed"
state_text canceled = "canceled"
state_text failed = "failed"
state_text rejected = "rejected"
state_text auth_required = "auth-required"
state_text unknown = "unknown"
state_text (other_state s) = s
