-- ===== src/A2a.antt =====
-- The protocol's data (a2a/a2a.go): kinds, roles, task states, and the structures of messages,
-- tasks, artifacts and stream events.
--
-- Go's string enums are data types whose last constructor holds any other string, the empty one
-- too. A `map[string]any`, which no code below looks into, is its keys with their values as text;
-- where the code tells nil from a map it is an `Option`.
pub mod Enums
pub mod Validation
pub mod Rpc
pub use Enums.{
  Kind, kind_message, kind_task, kind_text_part, kind_file_part, kind_data_part, kind_status_update,
  kind_artifact_update, other_kind, Role, role_user, role_agent, other_role, TaskState, submitted,
  working, input_required, completed, canceled, failed, rejected, auth_required, unknown,
  other_state,
}
unfoldable pub use Enums.{
  is_valid_role, is_valid_state, is_terminal, is_interrupted, can_cancel, role_text, state_text,
}
use atlasic.Prelude.{String, Bool, ℕ, Option, none, List, []}

abbrev pub JsonMap : Type 0
JsonMap = List (String × String)

pub record FilePart : Type 0 where
  pub uri : String
  pub bytes : String
  pub name : String
  pub mime_type : String

pub record Part : Type 0 where
  pub kind : Kind
  pub text : String
  pub file : Option FilePart
  pub content : Option JsonMap
  pub metadata : JsonMap

pub record Message : Type 0 where
  pub kind : Kind
  pub message_id : String
  pub context_id : String
  pub task_id : String
  pub role : Role
  pub parts : List Part
  pub reference_task_ids : List String
  pub extensions : List String
  pub metadata : JsonMap

pub record TaskStatus : Type 0 where
  pub state : TaskState
  pub message : Option Message
  pub timestamp : Option String

pub record Artifact : Type 0 where
  pub artifact_id : String
  pub name : String
  pub description : String
  pub parts : List Part
  pub extensions : List String
  pub metadata : JsonMap

pub record Task : Type 0 where
  pub kind : Kind
  pub id : String
  pub context_id : String
  pub status : TaskStatus
  pub history : List Message
  pub artifacts : List Artifact
  pub metadata : JsonMap

pub record TaskStatusUpdateEvent : Type 0 where
  pub kind : Kind
  pub task_id : String
  pub context_id : String
  pub status : TaskStatus
  pub final : Bool
  pub metadata : JsonMap

pub record TaskArtifactUpdateEvent : Type 0 where
  pub kind : Kind
  pub task_id : String
  pub context_id : String
  pub artifact : Artifact
  pub appends : Bool
  pub last_chunk : Bool
  pub metadata : JsonMap

-- The Go struct has a pointer for each kind of event, of which the library sets exactly one.
pub data StreamResponse : Type 0 where
  task_event : Task → StreamResponse
  message_event : Message → StreamResponse
  status_event : TaskStatusUpdateEvent → StreamResponse
  artifact_event : TaskArtifactUpdateEvent → StreamResponse

pub record PushNotificationAuthenticationInfo : Type 0 where
  pub schemes : List String
  pub credentials : String

pub record PushNotificationConfig : Type 0 where
  pub url : String
  pub id : String
  pub token : String
  pub authentication : Option PushNotificationAuthenticationInfo

pub record TaskPushNotificationConfig : Type 0 where
  pub task_id : String
  pub config : PushNotificationConfig

-- The options that a caller's functions fill in.
pub record MessageOptions : Type 0 where
  pub reference_task_ids : List String
  pub extensions : List String
  pub metadata : JsonMap

abbrev pub no_options : MessageOptions
no_options = record { reference_task_ids = []; extensions = []; metadata = [] }

unfoldable pub new_message : String → Role → List Part → MessageOptions → Message
new_message message_id role parts opts = record {
  kind = kind_message;
  message_id = message_id;
  context_id = "";
  task_id = "";
  role = role;
  parts = parts;
  reference_task_ids = opts.reference_task_ids;
  extensions = opts.extensions;
  metadata = opts.metadata;
}

unfoldable pub new_text_part : String → Part
new_text_part t = record {
  kind = kind_text_part;
  text = t;
  file = none;
  content = none;
  metadata = [];
}

-- JSON-RPC error codes, by their absolute values.
abbrev pub error_code_invalid_params : ℕ
error_code_invalid_params = 32602

abbrev pub error_code_task_not_found : ℕ
error_code_task_not_found = 32001

abbrev pub error_code_task_not_cancelable : ℕ
error_code_task_not_cancelable = 32002

abbrev pub error_code_push_notification_not_supported : ℕ
error_code_push_notification_not_supported = 32003

abbrev pub error_code_unsupported_operation : ℕ
error_code_unsupported_operation = 32004

abbrev pub error_code_blocking_not_allowed : ℕ
error_code_blocking_not_allowed = 32021
